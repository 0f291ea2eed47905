-- ===== src/Archives/Drafts.antt =====
-- ImportModule publishes nothing.
use pluris.Prelude.{ℕ, ◌<◌, Bool, false, In, ◌≡◌}
use pluris.Lifecycle.{Version, Store, Platform, is_draft}
use pluris.Lifecycle.Course.{Sound}
use pluris.Lifecycle.Quiet.{Leaves, Leaves-Kept}
use pluris.Archives.{Parsed}
use pluris.Archives.Import.{Reader, import_module}
use pluris.Archives.Relations.{import_module-Obeys}

module _ (platform : Platform) (reader : Reader) where
  -- Whatever an archive says of the states of its versions, and whichever queries fail: a version that
  -- is no draft after an import was there before, with the same columns, and belongs to a module that
  -- was there before.
  pub import_module-is_draft :
      (p : Parsed) (tenant_id owner_id : ℕ) (as_copy : Bool) (s : Store) (v : Version)
      → Sound s.tables
      → In v (import_module platform reader p tenant_id owner_id as_copy s).1.tables.versions
      → is_draft v.state ≡ false
      → In v s.tables.versions × (v.module_id < s.tables.next_module)
  import_module-is_draft p tenant_id owner_id as_copy s v sound listed deployed =
      let before =
        import_module-Obeys Leaves Leaves-Kept platform reader p tenant_id owner_id as_copy s v
          listed deployed in
      (before, sound.owners_bounded v before)
