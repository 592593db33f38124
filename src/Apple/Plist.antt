-- ===== src/Apple/Plist.antt =====
-- app/mdm/apple/plist.py: the messages of the device, and the parts of a decoded plist that the server
-- reads. `plistlib` is not modelled: a decoded body is a `PlistDict`, with a field for each key that
-- the server looks up, `none` where the key is absent.
use Prim.Native.Nat.{◌/◌, ◌%◌}
use Prim.Native.Char.{Char}
use mdm_saa_s.Common.{
  ℕ, zero, suc, String, Bool, false, Option, none, some, List, [], ◌∷◌, ◌==◌, if◌then◌else◌, get_or,
}
use mdm_saa_s.Database.{Result, ok, err, key_error}

-- `QueryResponses`
pub record QueryResponses : Type 0 where
  pub serial_number : Option String
  pub os_version : Option String
  pub model_name : Option String
  pub model : Option String
  pub device_name : Option String
  pub is_encrypted : Option Bool
  pub is_supervised : Option Bool

-- an entry of `InstalledApplicationList`
pub record AppEntry : Type 0 where
  pub name : Option String
  pub identifier : Option String
  pub version : Option String
  pub short_version : Option String
  pub source : Option String

-- an entry of `AvailableOSUpdates`
pub record UpdateEntry : Type 0 where
  pub product_key : Option String
  pub human_readable_name : Option String
  pub product_version : Option String
  pub build : Option String
  pub is_critical : Option Bool
  pub is_config_data_only : Option Bool
  pub restart_required : Option Bool
  pub metadata_url : Option String

-- an entry of `Users`
pub record UserEntry : Type 0 where
  pub user_short_name : Option String
  pub user_name : Option String
  pub user_full_name : Option String
  pub full_name : Option String
  pub user_guid : Option String
  pub is_admin : Option Bool
  pub is_logged_in : Option Bool
  pub has_secure_token : Option Bool

pub record PlistDict : Type 0 where
  pub message_type : Option String
  pub udid : Option String
  pub topic : Option String
  pub push_magic : Option String
  pub token : Option (List ℕ)
  pub unlock_token : Option (List ℕ)
  pub os_version : Option String
  pub serial_number : Option String
  pub model : Option String
  pub status : Option String
  pub command_uuid : Option String
  pub error_chain : Option (List String)
  pub query_responses : Option QueryResponses
  pub installed_application_list : Option (List AppEntry)
  pub available_os_updates : Option (List UpdateEntry)
  pub users : Option (List UserEntry)

-- Without the columns that no handler reads: build_version, product_name, user_id, user_short_name.
pub record AuthenticateMessage : Type 0 where
  pub udid : String
  pub topic : String
  pub os_version : Option String
  pub serial_number : Option String
  pub model : Option String

pub record TokenUpdateMessage : Type 0 where
  pub udid : String
  pub topic : String
  pub push_magic : String
  pub token : List ℕ
  pub unlock_token : Option (List ℕ)

pub record CheckOutMessage : Type 0 where
  pub udid : String
  pub topic : String

pub record CommandResultMessage : Type 0 where
  pub udid : String
  pub status : String
  pub command_uuid : Option String
  pub error_chain : List String
  pub raw : PlistDict

-- The result of `parse_checkin_message`; `unhandled` is the raw dict.
pub data CheckinMessage : Type 0 where
  authenticate : AuthenticateMessage → CheckinMessage
  token_update : TokenUpdateMessage → CheckinMessage
  check_out : CheckOutMessage → CheckinMessage
  unhandled : CheckinMessage

infixl 5 ◌>>=◌
abbrev ◌>>=◌ : {A B : Type 0} → Result A → (A → Result B) → Result B
ok a >>= f = f a
err e >>= f = err e

-- `data[key]`
abbrev required : {A : Type 0} → Option A → Result A
required none = err key_error
required (some a) = ok a

parse_authenticate : PlistDict → Result CheckinMessage
parse_authenticate d = do
  udid ← required d.udid
  topic ← required d.topic
  ok (
      authenticate (record {
        udid = udid;
        topic = topic;
        os_version = d.os_version;
        serial_number = d.serial_number;
        model = d.model;
      }))

parse_token_update : PlistDict → Result CheckinMessage
parse_token_update d = do
  udid ← required d.udid
  topic ← required d.topic
  push_magic ← required d.push_magic
  token ← required d.token
  ok (
      token_update (record {
        udid = udid;
        topic = topic;
        push_magic = push_magic;
        token = token;
        unlock_token = d.unlock_token;
      }))

parse_check_out : PlistDict → Result CheckinMessage
parse_check_out d = do
  udid ← required d.udid
  topic ← required d.topic
  ok (check_out (record { udid = udid; topic = topic }))

abbrev message_is : String → Option String → Bool
message_is kind none = false
message_is kind (some t) = t == kind

unfoldable pub parse_checkin_message : PlistDict → Result CheckinMessage
unfolding parse_authenticate parse_token_update parse_check_out
parse_checkin_message d =
    if message_is "Authenticate" d.message_type
    then parse_authenticate d
    else if message_is "TokenUpdate" d.message_type
    then parse_token_update d
    else if message_is "CheckOut" d.message_type
    then parse_check_out d
    else ok unhandled

unfoldable pub parse_connect_message : PlistDict → CommandResultMessage
parse_connect_message d = record {
  udid = get_or d.udid "";
  status = get_or d.status "Idle";
  command_uuid = d.command_uuid;
  error_chain = get_or d.error_chain [];
  raw = d;
}

-- `bytes.hex()`
abbrev char_at : String → ℕ → Char
char_at String.[] n = "0"
char_at (String.◌∷◌ c s) zero = c
char_at (String.◌∷◌ c s) (suc n) = char_at s n

abbrev hex_digit : ℕ → Char
hex_digit n = char_at "0123456789abcdef" n

unfoldable pub push_token_hex : List ℕ → String
push_token_hex [] = ""
push_token_hex (b ∷ bytes) =
    String.◌∷◌ (hex_digit (b / 16)) (String.◌∷◌ (hex_digit (b % 16)) (push_token_hex bytes))
