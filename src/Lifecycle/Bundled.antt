-- ===== src/Lifecycle/Bundled.antt =====
-- The bundled modules, `bundledSeed` of pkg/services/policymodules.go.
use pluris.Prelude.{List, [], ◌∷◌, refl}
use pluris.Lifecycle.Modules.{SeedVersion, SeedModule}
use pluris.Lifecycle.Safety.Seeding.{AreSeedable}

abbrev sshd_password_auth_disable_version : SeedVersion
sshd_password_auth_disable_version = record {
  version = "1.2.0";
  scope = "machine";
  target_os = "linux" ∷ [];
  satisfies = "sec.opt.null-passwords-console" ∷ [];
  depends_on =
      record { module_urn = "pluris.sshd.base-config"; version_constraint = ">=1.0.0 <2.0.0" } ∷ [];
  conflicts = "pluris.sshd.password-auth-allow" ∷ [];
  sandbox = record {
    fs_read = "/etc/ssh/" ∷ "/proc/version" ∷ [];
    fs_write = "/etc/ssh/sshd_config.d/" ∷ [];
    net_egress = [];
    user = "root";
  };
  report_schema =
      "{\"type\":\"object\",\"properties\":{\"sshd_running\":{\"type\":\"boolean\"},\"password_auth\":{\"type\":\"boolean\"}}}";
  scripts =
      record {
        phase = "apply";
        source =
            "#!/usr/bin/env bash\nset -euo pipefail\n# Disable password auth idempotently.\nsnippet=/etc/ssh/sshd_config.d/40-pluris-no-password.conf\nwant='PasswordAuthentication no'\necho \"$want\" > \"$snippet\"\nchmod 0644 \"$snippet\"\nsystemctl reload sshd\n";
      }
      ∷ record {
        phase = "disable";
        source =
            "#!/usr/bin/env bash\nset -euo pipefail\nsnippet=/etc/ssh/sshd_config.d/40-pluris-no-password.conf\nsed -i 's/^/# pluris-disabled: /' \"$snippet\" || true\nsystemctl reload sshd\n";
      }
      ∷ record {
        phase = "uninstall";
        source =
            "#!/usr/bin/env bash\nset -euo pipefail\nrm -f /etc/ssh/sshd_config.d/40-pluris-no-password.conf\nsystemctl reload sshd\n";
      }
      ∷ record {
        phase = "validate";
        source = "(WASM module — read sshd_config, return JSON state)";
      }
      ∷ [];
}

abbrev sshd_password_auth_disable : SeedModule
sshd_password_auth_disable = record {
  urn = "pluris.sshd.password-auth-disable";
  title = "Disable SSH password authentication";
  description =
      "Drops a snippet into /etc/ssh/sshd_config.d/ disabling password auth and reloads sshd. Idempotent; safe to re-apply.";
  versions = sshd_password_auth_disable_version ∷ [];
}

abbrev sshd_base_config_version : SeedVersion
sshd_base_config_version = record {
  version = "1.0.3";
  scope = "machine";
  target_os = "linux" ∷ [];
  satisfies = [];
  depends_on = [];
  conflicts = [];
  sandbox = record {
    fs_read = [];
    fs_write = "/etc/ssh/sshd_config.d/" ∷ "/etc/ssh/sshd_config" ∷ [];
    net_egress = [];
    user = "root";
  };
  report_schema = "";
  scripts =
      record {
        phase = "apply";
        source =
            "#!/usr/bin/env bash\nset -euo pipefail\nmkdir -p /etc/ssh/sshd_config.d\ngrep -q 'Include /etc/ssh/sshd_config.d/' /etc/ssh/sshd_config || echo 'Include /etc/ssh/sshd_config.d/*.conf' >> /etc/ssh/sshd_config\n";
      }
      ∷ [];
}

abbrev sshd_base_config : SeedModule
sshd_base_config = record {
  urn = "pluris.sshd.base-config";
  title = "SSH base configuration";
  description =
      "Ensures /etc/ssh/sshd_config.d/ exists and is loaded by sshd. Required by every other SSH-policy module.";
  versions = sshd_base_config_version ∷ [];
}

abbrev sshd_password_auth_allow_version : SeedVersion
sshd_password_auth_allow_version = record {
  version = "1.0.0";
  scope = "machine";
  target_os = "linux" ∷ [];
  satisfies = "sec.opt.null-passwords-console" ∷ [];
  depends_on =
      record { module_urn = "pluris.sshd.base-config"; version_constraint = ">=1.0.0 <2.0.0" } ∷ [];
  conflicts = "pluris.sshd.password-auth-disable" ∷ [];
  sandbox = record {
    fs_read = [];
    fs_write = "/etc/ssh/sshd_config.d/" ∷ [];
    net_egress = [];
    user = "root";
  };
  report_schema = "";
  scripts =
      record {
        phase = "apply";
        source =
            "echo 'PasswordAuthentication yes' > /etc/ssh/sshd_config.d/40-pluris-allow-password.conf";
      }
      ∷ [];
}

abbrev sshd_password_auth_allow : SeedModule
sshd_password_auth_allow = record {
  urn = "pluris.sshd.password-auth-allow";
  title = "Allow SSH password authentication";
  description =
      "Explicitly enables password auth (for migration windows). Conflicts with the disable module.";
  versions = sshd_password_auth_allow_version ∷ [];
}

abbrev user_screen_lock_timeout_version : SeedVersion
user_screen_lock_timeout_version = record {
  version = "2.0.1";
  scope = "user";
  target_os = "linux" ∷ [];
  satisfies = "u.personalization.screensaver" ∷ [];
  depends_on = [];
  conflicts = [];
  sandbox = record {
    fs_read = "/etc/os-release" ∷ [];
    fs_write = "$HOME/.config/dconf/" ∷ "$HOME/.config/plasma-locale-settings" ∷ [];
    net_egress = [];
    user = "$target_user";
  };
  report_schema = "";
  scripts =
      record {
        phase = "apply";
        source = "# read PLURIS_PARAMS_FD for idle-timeout, write dconf db";
      }
      ∷ record { phase = "uninstall"; source = "# remove pluris dconf overrides" }
      ∷ record { phase = "validate"; source = "(WASM — return current idle timeout)" }
      ∷ [];
}

abbrev user_screen_lock_timeout : SeedModule
user_screen_lock_timeout = record {
  urn = "pluris.user.screen-lock-timeout";
  title = "Set screen lock timeout (user)";
  description =
      "Configures GNOME / Plasma idle-lock to a parameterised timeout. User-scope; runs as $target_user.";
  versions = user_screen_lock_timeout_version ∷ [];
}

abbrev cert_client_pin_version : SeedVersion
cert_client_pin_version = record {
  version = "1.0.0";
  scope = "machine";
  target_os = "linux" ∷ [];
  satisfies = "pki.ca.trusted" ∷ [];
  depends_on = [];
  conflicts = [];
  sandbox = record {
    fs_read = "/etc/os-release" ∷ [];
    fs_write = "/etc/pki/ca-trust/source/anchors/" ∷ "/usr/local/share/ca-certificates/" ∷ [];
    net_egress = "https://crl.tenant.local/" ∷ [];
    user = "root";
  };
  report_schema =
      "{\"type\":\"object\",\"properties\":{\"crl_age_seconds\":{\"type\":\"integer\"},\"ca_present\":{\"type\":\"boolean\"}}}";
  scripts =
      record { phase = "apply"; source = "# install CA, refresh CRL" }
      ∷ record { phase = "uninstall"; source = "# remove CA, regenerate trust store" }
      ∷ record { phase = "report"; source = "(WASM — return CRL freshness JSON)" }
      ∷ [];
}

abbrev cert_client_pin : SeedModule
cert_client_pin = record {
  urn = "pluris.cert.client-pin";
  title = "Pin corporate CA on workstations";
  description =
      "Installs the corporate Root CA into the system trust store; periodically refreshes the CRL.";
  versions = cert_client_pin_version ∷ [];
}

abbrev pub bundled_seed : List SeedModule
bundled_seed =
    sshd_password_auth_disable ∷ sshd_base_config ∷ sshd_password_auth_allow
    ∷ user_screen_lock_timeout ∷ cert_client_pin ∷ []

pub bundled_seed-AreSeedable : AreSeedable bundled_seed
bundled_seed-AreSeedable = (refl, (refl, (refl, (refl, (refl, tt)))))
