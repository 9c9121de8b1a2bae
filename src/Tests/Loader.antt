-- ===== src/Tests/Loader.antt =====
-- src/config/loader.rs: a loader of the sample configuration.
use nic_autoswitch.Common.{refl, true, List, [], ◌∷◌, Text, bytes, Text-eq, ℕ-eq}
use nic_autoswitch.Config.{
  RouteRule-eq, validate_interface, validate_rule, validate_rules, validate_profile, validate,
}
use nic_autoswitch.Config.Loader.{
  malformed, parsed, ConfigLoader, load_from_path, new_loader, LoaderCall, subscribes, after_calls,
}
use nic_autoswitch.Config.Loader.Accepts.{IsAccepted, new_loader-IsAccepted}
use nic_autoswitch.Tests.Samples.{sample_config}

abbrev toml_path : Text
toml_path = bytes "/etc/a.toml"

abbrev sample_loader : ConfigLoader
sample_loader = record {
  path = toml_path;
  current = sample_config;
  sender = record { value = sample_config; receivers = 0 };
}

abbrev later_calls : List LoaderCall
later_calls = LoaderCall.overrides true ∷ subscribes ∷ LoaderCall.reloads malformed ∷ []

new_loader-IsAccepted_example : IsAccepted (after_calls later_calls sample_loader)
unfolding new_loader load_from_path validate validate_interface validate_profile validate_rules
    validate_rule
new_loader-IsAccepted_example =
    new_loader-IsAccepted toml_path (parsed sample_config) later_calls sample_loader refl
