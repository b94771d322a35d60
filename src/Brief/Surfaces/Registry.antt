-- ===== src/Brief/Surfaces/Registry.antt =====
-- internal/brief/surfaces.go: the registry of the paths through which an installed package gets code
-- executed as root. Its strings of activation are the constructors, and `other` any other string.
use prolewatch.Prelude.{List, [], ◌∷◌, ◌++◌, map, Bytes, codes, Bool, true, false}

pub data SurfaceKind : Type 0 where
  scriptlet hook systemd_unit systemd_generator sysusers tmpfiles udev_rule pam_module polkit_rule
        dbus_system_service sudoers cron kernel_config loader_preload service_hook :
      SurfaceKind

pub data SurfaceActivation : Type 0 where
  automatic enabled session passive : SurfaceActivation
  other : Bytes → SurfaceActivation

-- SurfaceActivation.RequiresDecision.
abbrev pub requires_decision : SurfaceActivation → Bool
requires_decision enabled = false
requires_decision session = false
requires_decision passive = false
requires_decision _ = true

pub record Surface : Type 0 where
  pub prefix : Bytes
  pub member : Bytes
  pub kind : SurfaceKind
  pub activation : SurfaceActivation
  pub when : Bytes

abbrev pub systemd_roots : List Bytes
systemd_roots =
    codes "usr/lib/systemd/"
    ∷ codes "usr/local/lib/systemd/"
    ∷ codes "etc/systemd/"
    ∷ codes "run/systemd/"
    ∷ []

abbrev pub config_roots : List Bytes
config_roots = codes "usr/lib/" ∷ codes "usr/local/lib/" ∷ codes "etc/" ∷ codes "run/" ∷ []

abbrev pub polkit_roots : List Bytes
polkit_roots = codes "usr/share/" ∷ codes "usr/local/share/" ∷ codes "etc/" ∷ codes "run/" ∷ []

abbrev pub dbus_service_roots : List Bytes
dbus_service_roots =
    codes "usr/share/"
    ∷ codes "usr/local/share/"
    ∷ codes "usr/lib/"
    ∷ codes "etc/"
    ∷ codes "run/"
    ∷ []

abbrev pub network_manager_roots : List Bytes
network_manager_roots = codes "etc/" ∷ codes "usr/lib/" ∷ []

abbrev pub under : Bytes → SurfaceKind → SurfaceActivation → Bytes → Surface
under p k a w = record { prefix = p; member = []; kind = k; activation = a; when = w }

abbrev pub exactly : Bytes → SurfaceKind → SurfaceActivation → Bytes → Surface
exactly m k a w = record { prefix = []; member = m; kind = k; activation = a; when = w }

abbrev pub add : List Bytes → Bytes → SurfaceKind → SurfaceActivation → Bytes → List Surface
add roots suffix k a w = map (λ root. under (root ++ suffix) k a w) roots

unfoldable pub registered_surfaces : List Surface
registered_surfaces =
    exactly (codes ".INSTALL") scriptlet automatic
      (codes "runs as root during this pacman transaction")
    ∷ under (codes "usr/share/libalpm/hooks/") hook automatic (
        codes "runs as root on EVERY subsequent pacman transaction; no pacman flag can suppress it")
    ∷ under (codes "etc/pacman.d/hooks/") hook automatic (
        codes "runs as root on EVERY subsequent pacman transaction; no pacman flag can suppress it")
    ∷ under (codes "etc/systemd/system.control/") systemd_unit enabled
        (codes "runs as root once enabled or triggered")
    ∷ under (codes "run/systemd/system.control/") systemd_unit enabled
        (codes "runs as root once enabled or triggered")
    ∷ under (codes "etc/systemd/system.attached/") systemd_unit enabled
        (codes "runs as root once enabled or triggered")
    ∷ under (codes "run/systemd/system.attached/") systemd_unit enabled
        (codes "runs as root once enabled or triggered")
    ∷ under (codes "run/systemd/transient/") systemd_unit enabled
        (codes "runs as root once enabled or triggered")
    ∷ under (codes "run/systemd/generator/") systemd_unit enabled
        (codes "runs as root once enabled or triggered")
    ∷ under (codes "run/systemd/generator.early/") systemd_unit enabled
        (codes "runs as root once enabled or triggered")
    ∷ under (codes "run/systemd/generator.late/") systemd_unit enabled
        (codes "runs as root once enabled or triggered")
    ∷ under (codes "usr/lib/security/") pam_module passive
        (codes "a PAM module, loaded only where a PAM configuration references it")
    ∷ under (codes "etc/pam.d/") pam_module automatic
        (codes "decides how authentication is performed, from the next login onwards")
    ∷ under (codes "etc/sudoers.d/") sudoers automatic (codes "grants privilege directly")
    ∷ under (codes "etc/cron.d/") cron automatic (codes "runs as root on a schedule")
    ∷ under (codes "etc/cron.daily/") cron automatic (codes "runs as root on a schedule")
    ∷ under (codes "etc/cron.hourly/") cron automatic (codes "runs as root on a schedule")
    ∷ under (codes "etc/cron.weekly/") cron automatic (codes "runs as root on a schedule")
    ∷ under (codes "etc/cron.monthly/") cron automatic (codes "runs as root on a schedule")
    ∷ under (codes "usr/share/dbus-1/system.d/") dbus_system_service passive
        (codes "declares who may talk to a service on the system bus; runs nothing itself")
    ∷ under (codes "etc/dbus-1/system.d/") dbus_system_service passive
        (codes "declares who may talk to a service on the system bus; runs nothing itself")
    ∷ under (codes "etc/profile.d/") kernel_config automatic
        (codes "runs in every login shell, including root's")
    ∷ exactly (codes "etc/ld.so.preload") loader_preload automatic (
        codes
          "loads package-named libraries into every dynamically linked process, root ones included")
    ∷ []

unfoldable pub searched_surfaces : List Surface
searched_surfaces =
    add systemd_roots (codes "system/") systemd_unit enabled
      (codes "runs as root once enabled or triggered")
    ++ add systemd_roots (codes "user/") systemd_unit session
        (codes "runs in the user's systemd session, not as root")
    ++ add systemd_roots (codes "system-generators/") systemd_generator automatic
        (codes "runs as root very early, on every boot and daemon-reload, with no enablement step")
    ++ add systemd_roots (codes "user-generators/") systemd_generator session
        (codes "runs in the user's systemd session on every reload, not as root")
    ++ add systemd_roots (codes "system-environment-generators/") systemd_generator automatic
        (codes "runs as root and sets the system manager's environment")
    ++ add systemd_roots (codes "user-environment-generators/") systemd_generator session
        (codes "runs in the user's session and sets its environment, not as root")
    ++ add config_roots (codes "sysusers.d/") sysusers automatic
        (codes "creates accounts and groups as root at install time")
    ++ add config_roots (codes "tmpfiles.d/") tmpfiles automatic
        (codes "creates and chowns paths as root at install time and on boot")
    ++ add config_roots (codes "udev/rules.d/") udev_rule automatic
        (codes "runs as root on matching device events")
    ++ add config_roots (codes "sysctl.d/") kernel_config automatic
        (codes "sets kernel parameters as root at boot")
    ++ add config_roots (codes "modules-load.d/") kernel_config automatic
        (codes "loads kernel modules as root at boot")
    ++ add config_roots (codes "modprobe.d/") kernel_config automatic
        (codes "changes how kernel modules are loaded")
    ++ add config_roots (codes "binfmt.d/") kernel_config automatic
        (codes "registers an interpreter the kernel invokes for matching binaries")
    ++ add polkit_roots (codes "polkit-1/rules.d/") polkit_rule automatic
        (codes "decides privileged authorisation requests, immediately")
    ++ add polkit_roots (codes "polkit-1/actions/") polkit_rule automatic (
        codes
          "can grant rights immediately through <defaults> or org.freedesktop.policykit.imply; inspect both")
    ++ add dbus_service_roots (codes "dbus-1/system-services/") dbus_system_service enabled
        (codes "can be activated as a system service on request")
    ++ add systemd_roots (codes "system-sleep/") service_hook automatic
        (codes "runs as root before and after every suspend or hibernate")
    ++ add systemd_roots (codes "system-shutdown/") service_hook automatic
        (codes "runs as root during every power-off, reboot, halt or kexec")
    ++ add network_manager_roots (codes "NetworkManager/dispatcher.d/") service_hook automatic
        (codes "runs as root on network events, if NetworkManager is installed")

unfoldable pub privileged_surfaces : List Surface
unfolding registered_surfaces searched_surfaces
privileged_surfaces = registered_surfaces ++ searched_surfaces
