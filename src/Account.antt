-- ===== src/Account.antt =====
-- Small rules of the account pages: console/src/hooks/resendTimer.ts, console/src/hooks/signupProgress.ts,
-- console/src/utils/userInitials.ts, console/src/utils/images.ts, console/src/utils/edgeApiError.ts and
-- console/src/features/dns/flag.ts.
pub mod Timer
pub mod Initials
mod Tests
use nfx_edge.Common.{
  ℕ, zero, suc, ◌-◌, Text, codes, Bool, true, false, not, ◌&&◌, ◌||◌, Option, none, some, List, [],
  ◌∷◌, ◌++◌, map, leb, ltb, ◌==◌, if◌then◌else◌, length, take, filter, text_eq, trim, lower,
  starts_with, truthy, is_empty, or_else, join, split,
}

-- `useResendTimer`: the seconds that are left.
unfoldable pub tick : ℕ → ℕ
tick time_left = if ltb 0 time_left then time_left - 1 else time_left

unfoldable pub can_resend : ℕ → Bool
can_resend time_left = time_left == 0

-- The time that is left when so many seconds have passed.
unfoldable pub ticks : ℕ → ℕ → ℕ
unfolding tick
ticks zero time_left = time_left
ticks (suc n) time_left = ticks n (tick time_left)

-- The values of the sign-up form, and which of them have an error.
pub record Signup : Type 0 where
  pub email : Text
  pub verification_code : Text
  pub password : Text
  pub confirm_password : Text
  pub email_error : Bool
  pub code_error : Bool
  pub password_error : Bool
  pub confirm_error : Bool

unfoldable pub is_verified : Signup → Bool
is_verified form =
    truthy form.email
    && not form.email_error
    && length form.verification_code == 6
    && not form.code_error

unfoldable pub is_secured : Signup → Bool
unfolding is_verified text_eq
is_secured form =
    is_verified form
    && truthy form.password
    && not form.password_error
    && text_eq form.password form.confirm_password
    && not form.confirm_error

-- `toUpperCase` of the ASCII letters; other code units are left alone.
unfoldable pub upper : Text → Text
upper s = map (λ c. if leb b'a' c && leb c b'z' then c - 32 else c) s

abbrev pub question : Text
question = codes "?"

-- `email[0] ?? "?"`
abbrev pub first_letter : Text → Text
first_letter [] = question
first_letter (c ∷ s) = c ∷ []

abbrev pub first_part : List Text → Text
first_part [] = []
first_part (t ∷ ts) = t

unfoldable pub local_initials : Text → Text
unfolding upper
local_initials local =
    if leb 2 (length local)
    then upper (take 2 local)
    else if length local == 1
    then upper local ++ question
    else question

unfoldable pub initials_from : Text → Text → Text
unfolding upper trim local_initials split
initials_from display_name email =
    let n = trim display_name in
    if leb 2 (length n)
    then upper (take 2 n)
    else if length n == 1
    then upper n ++ upper (first_letter email)
    else local_initials (first_part (split email b'@'))

-- `buildImageUrl`, with the URL of an identifier of nfx-ui.
unfoldable pub build_image_url : (Text → Text) → Option Text → Text
unfolding starts_with
build_image_url file_url none = []
build_image_url file_url (some id) =
    if is_empty id
    then []
    else if starts_with id (codes "http://") || starts_with id (codes "https://")
    then id
    else file_url id

abbrev pub default_avatar : Text
default_avatar = codes "/default-avatar.png"

unfoldable pub build_avatar_image_src : (Text → Text) → Option Text → Text
unfolding build_image_url
build_avatar_image_src file_url none = default_avatar
build_avatar_image_src file_url (some id) =
    if truthy id then build_image_url file_url (some id) else default_avatar

unfoldable pub resolve_avatar_src : (Text → Text) → Option Text → Text
unfolding build_image_url
resolve_avatar_src file_url id = or_else (build_image_url file_url id) default_avatar

unfoldable pub is_namecheap_flag : Option Text → Bool
unfolding lower text_eq
is_namecheap_flag none = false
is_namecheap_flag (some value) =
    text_eq (lower value) (codes "true") || text_eq (lower value) (codes "yes")

-- The `detail` of an answer that is an error: a text, a list of messages (empty where an item has
-- none), or something else.
pub data Detail : Type 0 where
  text : Text → Detail
  items : List Text → Detail
  other : Detail

unfoldable pub detail_message : Detail → Text → Text
unfolding trim
detail_message (text detail) fallback = if truthy (trim detail) then detail else fallback
detail_message (items messages) fallback =
    let given = filter truthy messages in
    if ltb 0 (length given) then join (codes "; ") given else fallback
detail_message other fallback = fallback

-- `edgeApiErrorMessage`: the message, if it is a text, and the detail of an answer with data.
unfoldable pub edge_api_error_message : Option (Option Text × Detail) → Text → Text
unfolding detail_message trim
edge_api_error_message none fallback = fallback
edge_api_error_message (some (none, detail)) fallback = detail_message detail fallback
edge_api_error_message (some (some message, detail)) fallback =
    if truthy (trim message) then message else detail_message detail fallback
