-- ===== src/Tests/Config.antt =====
-- src/config/schema.rs: the validation of a configuration, a rule and a pattern.
use nic_autoswitch.Common.{◌≡◌, refl, ◌≢◌, ◌↔◌, bytes, Text-eq, ℕ-eq}
use nic_autoswitch.Error.{ok}
use nic_autoswitch.Config.{
  RouteRule-eq, validate_domain_pattern, validate_interface, validate_rule, validate_rules,
  validate_profile, validate,
}
use nic_autoswitch.Config.Accepted.{IsValid, validate_iff}
use nic_autoswitch.Tests.Samples.{sample_config}

validate_iff_example : (validate sample_config ≡ ok tt) ↔ IsValid sample_config
validate_iff_example = validate_iff sample_config

accepts_sample : validate sample_config ≡ ok tt
unfolding validate validate_interface validate_profile validate_rules validate_rule
accepts_sample = refl

rejects_inner_star : validate_domain_pattern (bytes "a*b") ≢ ok tt
unfolding validate_domain_pattern
rejects_inner_star h = cc
