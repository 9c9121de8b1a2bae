-- ===== src/Error/Display.antt =====
-- src/error.rs: the texts of the errors, from those of their messages, and the conversions.
use nic_autoswitch.Common.{◌++◌, Text, bytes, Text-eq, ℕ-eq}
use nic_autoswitch.Error.{
  Error, Message, config, network, dns, route, io, dbus, invalid_input, toml, json, timeout,
}

-- `message_text` is the text that a message stands for.
unfoldable pub display : (message_text : Message → Text) → Error → Text
display message_text (config m) = bytes "Configuration error: " ++ message_text m
display message_text (network m) = bytes "Network operation failed: " ++ message_text m
display message_text (dns m) = bytes "DNS resolution failed: " ++ message_text m
display message_text (route m) = bytes "Route operation failed: " ++ message_text m
display message_text (io m) = bytes "I/O error: " ++ message_text m
display message_text (dbus m) = bytes "D-Bus error: " ++ message_text m
display message_text (invalid_input m) = bytes "Invalid input: " ++ message_text m
display message_text timeout = bytes "Operation timed out"
display message_text (toml m) = bytes "TOML parsing error: " ++ message_text m
display message_text (json m) = bytes "JSON error: " ++ message_text m

-- `#[from]`, and the conversion of an error of the TOML crate
unfoldable pub from_io : Message → Error
from_io e = io e

unfoldable pub from_json : Message → Error
from_json e = json e

unfoldable pub from_toml : Message → Error
from_toml e = toml e
