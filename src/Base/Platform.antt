-- ===== src/Base/Platform.antt =====
-- What the program takes from the interpreter without walking it: how a value that is no text prints,
-- and how instants are written and read. An instant is a number of microseconds since the epoch.
use driftdriver.Base.{
  ℕ, ◌≤◌, String, ◌≡◌, false, true, Option, some, is_empty, strip, lower, replace_z,
}
use driftdriver.Base.Value.{Value, null, bool, str, or_else}

pub record Platform : Type 0 where
  -- `str(v)` of a number, a list or a dictionary
  pub repr : Value → String
  -- `datetime.fromtimestamp(t, tz=timezone.utc).isoformat()`, defined up to `last_instant`
  pub iso : ℕ → String
  pub last_instant : ℕ
  -- `datetime.fromisoformat(text).timestamp()`; `none` is the `ValueError`, and an instant before
  -- the epoch counts as 0
  pub from_iso : String → Option ℕ
  pub from_iso-iso : (t : ℕ) → t ≤ last_instant → from_iso (iso t) ≡ some t
  pub strip-iso : (t : ℕ) → strip (iso t) ≡ iso t
  pub replace_z-iso : (t : ℕ) → replace_z (iso t) ≡ iso t
  pub iso_filled : (t : ℕ) → is_empty (iso t) ≡ false

-- `str(v)`
unfoldable pub str_of : Platform → Value → String
str_of p null = "None"
str_of p (bool true) = "True"
str_of p (bool false) = "False"
str_of p (str s) = s
str_of p v = p.repr v

-- `str(v or "").strip()`
unfoldable pub field_text : Platform → Value → String
unfolding str_of
field_text p v = strip (str_of p (or_else v (str "")))

-- `str(v or default).strip().lower()`
unfoldable pub word : Platform → Value → String → String
unfolding str_of
word p v default = lower (strip (str_of p (or_else v (str default))))
