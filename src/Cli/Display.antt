-- ===== src/Cli/Display.antt =====
-- src/cli/commands.rs: the texts that the commands print.
use nic_autoswitch.Common.{
  ℕ, zero, suc, ◌+◌, ◌-◌, ◌≤◌, ◌≡◌, refl, ◌∙◌, Bool, ◌||◌, ltb, leb, Option, none, some, [], ◌∷◌,
  ◌++◌, arith, if◌then◌else◌, Text, bytes, Text-eq, ℕ-eq,
}
use nic_autoswitch.Daemon.Json.{Json}
use nic_autoswitch.Cli.Commands.{
  Output, formatted, state_line, version_line, message_line, no_active_routes, daemon_running,
  daemon_not_up,
}

-- `to_string_pretty` of serde_json, where it succeeds, and the `Display` of its values.
pub record Printer : Type 0 where
  pub to_string_pretty : Json → Option Text
  pub display : Json → Text

abbrev line_end : Text
line_end = 10 ∷ []

-- "✓ ", in UTF-8
abbrev check_mark : Text
check_mark = 226 ∷ 156 ∷ 147 ∷ 32 ∷ []

module _ (printer : Printer) where
  unfoldable pub print_json_formatted : Json → Text
  print_json_formatted value = elim (printer.to_string_pretty value) [
    | some pretty ↦ pretty ++ line_end
    | none ↦ printer.display value ++ line_end
  ]

  -- What `println!` writes for each of the outputs.
  unfoldable pub render : Output → Text
  unfolding print_json_formatted
  render (formatted value) = print_json_formatted value
  render (state_line value) = bytes "State: " ++ printer.display value ++ line_end
  render (version_line value) = bytes "Version: " ++ printer.display value ++ line_end
  render (message_line message) = check_mark ++ message ++ line_end
  render no_active_routes = bytes "No active routes" ++ line_end
  render daemon_running = bytes "Daemon is running" ++ line_end
  render daemon_not_up = bytes "Daemon is not running" ++ line_end

pub record StatusResponse : Type 0 where
  pub version : Text
  pub state : Text
  pub uptime_secs : ℕ
  pub active_routes : ℕ

pub record RouteEntry : Type 0 where
  pub rule_name : Text
  pub interface : Text
  pub table_id : ℕ

-- A byte of UTF-8 that begins a character is not one of 128 to 191.
abbrev begins_char : ℕ → Bool
begins_char b = ltb b 128 || leb 192 b

-- `s.chars().count()`
unfoldable pub chars : Text → ℕ
chars [] = 0
chars (b ∷ t) = (if begins_char b then 1 else 0) + chars t

unfoldable pub spaces : ℕ → Text
spaces zero = []
spaces (suc n) = 32 ∷ spaces n

-- `{:<width}`
unfoldable pub pad_right : (width : ℕ) → Text → Text
unfolding chars spaces
pad_right width t = t ++ spaces (width - chars t)

-- `to_decimal` is the `Display` of the integers.
unfoldable pub status_display : (to_decimal : ℕ → Text) → StatusResponse → Text
status_display to_decimal s =
    bytes "Version: "
    ++ s.version
    ++ line_end
    ++ bytes "State: "
    ++ s.state
    ++ line_end
    ++ bytes "Uptime: "
    ++ to_decimal s.uptime_secs
    ++ bytes "s"
    ++ line_end
    ++ bytes "Active routes: "
    ++ to_decimal s.active_routes

unfoldable pub route_display : (to_decimal : ℕ → Text) → RouteEntry → Text
unfolding pad_right
route_display to_decimal r =
    pad_right 30 r.rule_name
    ++ bytes " via "
    ++ pad_right 10 r.interface
    ++ bytes " (table "
    ++ to_decimal r.table_id
    ++ bytes ")"

chars-append : (s t : Text) → chars (s ++ t) ≡ chars s + chars t
unfolding chars
chars-append [] t = omega arith
chars-append (b ∷ s) t = omega (arith, chars-append s t)

chars-spaces : (n : ℕ) → chars (spaces n) ≡ n
unfolding chars spaces
chars-spaces zero = refl
chars-spaces (suc n) = omega (arith, chars-spaces n)

chars-pad_right : (width : ℕ) (t : Text) → chars t ≤ width → chars (pad_right width t) ≡ width
unfolding pad_right
chars-pad_right width t h =
    omega (arith, chars-append t (spaces (width - chars t)), chars-spaces (width - chars t))

chars_parts :
    (a b c d e f : Text)
    → chars (a ++ b ++ c ++ d ++ e ++ f) ≡ chars a + chars b + chars c + chars d + chars e + chars f
chars_parts a b c d e f = simp chars-append

-- Entries whose names have at most 30 characters, and their interfaces at most 10, are shown in columns:
-- the text is 54 characters longer than the table's number, whatever the names.
pub chars-route_display :
    (to_decimal : ℕ → Text) (r : RouteEntry)
    → chars r.rule_name ≤ 30
    → chars r.interface ≤ 10
    → chars (route_display to_decimal r) ≡ 54 + chars (to_decimal r.table_id)
unfolding route_display chars
chars-route_display to_decimal r h h' =
    chars_parts (pad_right 30 r.rule_name) (bytes " via ") (pad_right 10 r.interface)
      (bytes " (table ") (to_decimal r.table_id) (bytes ")")
    ∙ omega (arith, chars-pad_right 30 r.rule_name h, chars-pad_right 10 r.interface h')
