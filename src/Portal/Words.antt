-- ===== src/Portal/Words.antt =====
-- assets/portal/portal.js, lines 113-204: sizes, kinds of files, paths and error messages.
pub mod Paths
pub mod Inside
pub mod Units
use vault_box.Base.{
  ℕ, zero, suc, ◌+◌, ◌*◌, ◌/◌, ltb, leb, Bool, Option, none, some, if◌then◌else◌, List, [], ◌∷◌,
  ◌++◌, Text, codes, same, drop, take, one_of, non_empty, split, last_index_of, to_lower, decimal,
  keep, ◌%◌,
}
use vault_box.Base.Dict.{Dict}
use vault_box.Base.Dict
use vault_box.Mock.Serve.{Property, own, inherited, missing, property}

-- The loop of `formatBytes`: from kilobytes on, the size of a unit and how many larger ones there
-- are, up to terabytes.
unfoldable pub scale : (larger : ℕ) → (unit bytes : ℕ) → ℕ × ℕ
scale zero unit bytes = (unit, 0)
scale (suc k) unit bytes =
    let rest = scale k (unit * 1024) bytes in
    if leb (1024 * unit) bytes then rest else (unit, suc k)

unfoldable pub unit_name : ℕ → Text
unit_name zero = codes "TB"
unit_name (suc zero) = codes "GB"
unit_name (suc (suc zero)) = codes "MB"
unit_name larger = codes "KB"

-- `toFixed(0)` and `toFixed(1)` of a quotient, half of a last digit rounded up.
pub rounded : (digits_power bytes unit : ℕ) → ℕ
rounded ten bytes unit = (2 * ten * bytes + unit) / (2 * unit)

pub in_units : ℕ → ℕ → ℕ → Text
in_units bytes unit larger =
    (if leb (10 * unit) bytes
      then decimal (rounded 1 bytes unit)
      else decimal (rounded 10 bytes unit / 10) ++ b'.' ∷ decimal (rounded 10 bytes unit % 10))
    ++ b' ' ∷ unit_name larger

unfoldable pub format_bytes : Option ℕ → Text
unfolding scale unit_name in_units rounded
format_bytes none = []
format_bytes (some bytes) =
    if ltb bytes 1024
    then decimal bytes ++ codes " B"
    else let (unit, larger) = scale 3 1024 bytes in in_units bytes unit larger

pub data Kind : Type 0 where
  image video audio plain_text other : Kind

unfoldable pub kind_of_extension : Text → Kind
kind_of_extension ext =
    if one_of ext
      (codes "png" ∷ codes "jpg" ∷ codes "jpeg" ∷ codes "gif" ∷ codes "webp" ∷ codes "bmp" ∷ [])
    then image
    else if one_of ext (codes "mp4" ∷ codes "m4v" ∷ codes "webm" ∷ codes "mov" ∷ codes "3gp" ∷ [])
    then video
    else if one_of ext
        (codes "mp3" ∷ codes "m4a" ∷ codes "aac" ∷ codes "wav" ∷ codes "ogg" ∷ codes "flac" ∷ [])
    then audio
    else if one_of ext (codes "txt" ∷ codes "md" ∷ codes "log" ∷ codes "csv" ∷ [])
    then plain_text
    else other

unfoldable pub kind_of : Text → Kind
unfolding kind_of_extension to_lower last_index_of
kind_of name = elim (last_index_of b'.' name) [
  | none ↦ other
  | some zero ↦ other
  | some (suc dot) ↦ kind_of_extension (to_lower (drop (suc (suc dot)) name))
]

unfoldable pub join_path : (directory name : Text) → Text
join_path directory name =
    if same directory (codes "/") then b'/' ∷ name else directory ++ b'/' ∷ name

unfoldable pub parent_path : Text → Text
unfolding last_index_of
parent_path path = elim (last_index_of b'/' path) [
  | none ↦ codes "/"
  | some zero ↦ codes "/"
  | some (suc cut) ↦ take (suc cut) path
]

unfoldable pub path_segments : Text → List Text
unfolding split
path_segments path = keep non_empty (split b'/' path)

abbrev pub messages : Dict Text
messages =
    (codes "invalid_credentials", codes "That username and password don't match.")
    ∷ (codes "too_many_attempts", codes "Too many attempts.")
    ∷ (codes "busy", codes "The phone is busy right now. Try again in a moment.")
    ∷ (codes "unauthorized", codes "Your session ended. Sign in again to continue.")
    ∷ (codes "forbidden", codes "You don't have permission to do that.")
    ∷ (codes "read_only_storage", codes "This storage is read-only.")
    ∷ (codes "not_found", codes "That item no longer exists.")
    ∷ (codes "root_not_found", codes "That storage location isn't available.")
    ∷ (codes "storage_unavailable", codes "That storage isn't reachable right now.")
    ∷ (
      codes "storage_permission_revoked",
      codes "VaultBox lost access to this storage. Reconnect it on the phone.",
    )
    ∷ (codes "already_exists", codes "Something with that name already exists.")
    ∷ (codes "parent_not_found", codes "That folder no longer exists.")
    ∷ (codes "destination_not_found", codes "The destination folder no longer exists.")
    ∷ (codes "invalid_name", codes "That name can't be used.")
    ∷ (codes "invalid_path", codes "That location isn't allowed.")
    ∷ (codes "is_a_directory", codes "A folder with that name already exists.")
    ∷ (codes "not_a_file", codes "That is a folder, not a file.")
    ∷ (codes "insufficient_storage", codes "There isn't enough free space on the phone.")
    ∷ (codes "upload_interrupted", codes "The upload was interrupted.")
    ∷ (codes "payload_too_large", codes "That request was too large.")
    ∷ (codes "network", codes "Can't reach the phone. Check that it is on and on the same network.")
    ∷ []

unfoldable pub or_generic : Property Text → Property Text
or_generic missing = own (codes "Something went wrong. Please try again.")
or_generic p = p

-- `describeError`: `inherited` where the code is the name of a property that all objects have.
unfoldable pub describe_error : (code : Text) → (retry_after : Option Text) → Property Text
unfolding or_generic property Dict.get
describe_error code (some (c ∷ wait)) =
    if same code (codes "too_many_attempts")
    then own (codes "Too many attempts. Try again in " ++ (c ∷ wait) ++ codes " seconds.")
    else or_generic (property code messages)
describe_error code retry_after = or_generic (property code messages)
