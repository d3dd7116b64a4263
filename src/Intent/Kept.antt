-- ===== src/Intent/Kept.antt =====
-- driftdriver/continuation_intent.py and speedriftd_state.py: what an intent and the control state do to
-- each other in the one file that holds both.
use mathlib.Core.Path.{fun_ext}
use driftdriver.Base.{
  ℕ, String, ◌≡◌, refl, sym, ap, ◌∙◌, true, Option, none, some, is_in, Bool-cases, inl, inr, ◌==◌,
  if◌then◌else◌,
}
use driftdriver.Base.Value.{
  Value, dict, Fields, field, end, ok, ◌>>=◌, >>=-eq-ok, ok_injective, get?, put, get-put,
}
use driftdriver.Base.Platform.{Platform}
use driftdriver.Control.State.{Control, update, to_fields}
use driftdriver.Control.Normalize.{default_control, normalize, normalize_control_state}
use driftdriver.Control.Authority.{
  Repository, read_json, load_control_state, load_dispatch_authority, apply_runtime_gate,
  dispatch_authority, fail_closed,
}
use driftdriver.Control.Write.{Request, amend, write_control_state}
use driftdriver.Intent.Store.{
  ControlFile, absent, unreadable, parsed, read_control, intent_in, stored, valid_intents,
  valid_set_by, intent_of, read_intent, Wish, wished, intent_record, with_intent, write_intent,
}

-- The file control.json of a repository that holds a dictionary or is missing.
abbrev pub file_of : Option Fields → ControlFile
file_of none = absent
file_of (some d) = parsed (dict d)

-- A file that holds a dictionary, or from which nothing is read without an exception.
pub data Shows : ControlFile → Option Fields → Type 0 where
  nothing : Shows absent none
  garbled : Shows unreadable none
  fields : (d : Fields) → Shows (parsed (dict d)) (some d)

intent_of-intent_record : (w : Wish) → intent_of (dict (intent_record (wished w))) ≡ some (wished w)
unfolding intent_record wished get?
intent_of-intent_record w = refl

get-intent :
    (v : Value) (d : Fields) → get? "continuation_intent" (put "continuation_intent" v d) ≡ some v
get-intent v d = get-put "continuation_intent" "continuation_intent" v d

-- The lookups of a dictionary but for the key of the intent.
abbrev masked : Fields → String → Option Value
masked d k = if "continuation_intent" == k then none else get? k d

masked-put : (v : Value) (d : Fields) → masked (put "continuation_intent" v d) ≡ masked d
masked-put v d = fun_ext (λ k. elim (Bool-cases ("continuation_intent" == k)) [
  | inl same ↦ rw same refl
  | inr other ↦ rw (other, get-put "continuation_intent" k v d, other) refl
])

abbrev stays_or : Value → Option Value → Value
stays_or old none = old
stays_or old (some v) = v

gather : Control → (String → Option Value) → Control
gather c f = record {
  repo = stays_or c.repo (f "repo");
  updated_at = stays_or c.updated_at (f "updated_at");
  mode = stays_or c.mode (f "mode");
  dispatch_enabled = stays_or c.dispatch_enabled (f "dispatch_enabled");
  interactive_service_start = stays_or c.interactive_service_start (f "interactive_service_start");
  lease_owner = stays_or c.lease_owner (f "lease_owner");
  lease_acquired_at = stays_or c.lease_acquired_at (f "lease_acquired_at");
  lease_ttl_seconds = stays_or c.lease_ttl_seconds (f "lease_ttl_seconds");
  lease_ttl_valid = stays_or c.lease_ttl_valid (f "lease_ttl_valid");
  lease_expires_at = stays_or c.lease_expires_at (f "lease_expires_at");
  lease_active = stays_or c.lease_active (f "lease_active");
  source = stays_or c.source (f "source");
  reason = stays_or c.reason (f "reason");
}

update-gather : (c : Control) (d : Fields) → update c d ≡ gather c (masked d)
unfolding update gather
update-gather c d = refl

update-put :
    (c : Control) (v : Value) (d : Fields) → update c (put "continuation_intent" v d) ≡ update c d
update-put c v d =
    update-gather c (put "continuation_intent" v d)
    ∙ ap (gather c) (masked-put v d)
    ∙ sym (update-gather c d)

-- A repository after an intent was written into its control.json.
abbrev pub with_control : Repository → Fields → Repository
with_control r d = record r { control = some d }

abbrev pub stored_in : Option Fields → Wish → Fields
stored_in none w = put "continuation_intent" (dict (intent_record (wished w))) end
stored_in (some d) w = put "continuation_intent" (dict (intent_record (wished w))) d

pub write_intent-stores :
    (w : Wish) (f : ControlFile) (x : Option Fields)
    → is_in w.intent valid_intents ≡ true
    → is_in w.set_by valid_set_by ≡ true
    → Shows f x
    → write_intent w f ≡ ok (wished w, dict (stored_in x w))
unfolding write_intent read_control stored with_intent put
write_intent-stores w f x known who nothing = rw (known, who) refl
write_intent-stores w f x known who garbled = rw (known, who) refl
write_intent-stores w f x known who (fields end) = rw (known, who) refl
write_intent-stores w f x known who (fields (field k v d)) = rw (known, who) refl

pub read_intent-stored :
    (w : Wish) (x : Option Fields)
    → read_intent (parsed (dict (stored_in x w))) ≡ ok (some (wished w))
unfolding read_intent read_control intent_in
read_intent-stored w none =
    rw (get-intent (dict (intent_record (wished w))) end) (ap ok (intent_of-intent_record w))
read_intent-stored w (some d) =
    rw (get-intent (dict (intent_record (wished w))) d) (ap ok (intent_of-intent_record w))

update-stored :
    (c : Control) (w : Wish) (x : Option Fields) → update c (stored_in x w) ≡ update c (read_json x)
update-stored c w none = update-put c _ end
update-stored c w (some d) = update-put c _ d

load_control_state-stored :
    (p : Platform) (now : ℕ) (r : Repository) (w : Wish)
    → load_control_state p now (with_control r (stored_in r.control w)) ≡ load_control_state p now r
unfolding load_control_state normalize_control_state
load_control_state-stored p now r w =
    ap
      (λ f. r.located >>= λ _.
        (default_control p now r.name r.cfg >>= λ base. normalize p now r.name (f base)) >>= λ c.
        apply_runtime_gate p c)
      (fun_ext (λ base. update-stored base w r.control))

-- Where control.json can be written and is missing, holds text that is no JSON or holds a dictionary, a
-- valid intent is written and read back as it was written, and the file that then holds both gives the
-- same control state and the same authority to dispatch, at every instant.
pub write_intent-read_intent :
    (p : Platform) (r : Repository) (f : ControlFile) (w : Wish)
    → is_in w.intent valid_intents ≡ true
    → is_in w.set_by valid_set_by ≡ true
    → Shows f r.control
    → (d : Fields) × (write_intent w f ≡ ok (wished w, dict d))
      × (read_intent (parsed (dict d)) ≡ ok (some (wished w)))
      × ((now : ℕ)
          → (load_control_state p now (with_control r d) ≡ load_control_state p now r)
            × (load_dispatch_authority p now (with_control r d) ≡ load_dispatch_authority p now r))
unfolding load_dispatch_authority
write_intent-read_intent p r f w known who shows = (
  stored_in r.control w,
  write_intent-stores w f r.control known who shows,
  read_intent-stored w r.control,
  λ now.
      let same = load_control_state-stored p now r w in
      (same, ap (λ m. fail_closed (m >>= λ c. dispatch_authority p c)) same),
)

no_intent : (c : Control) → read_intent (parsed (dict (to_fields c))) ≡ ok none
unfolding read_intent read_control intent_in to_fields get?
no_intent c = refl

-- After a write of the control state, whatever it asks for, the file holds no intent: what stood there
-- is lost.
pub write_control_state-forgets :
    (p : Platform) (now : ℕ) (r : Repository) (q : Request) (c : Control) (r' : Repository)
    → write_control_state p now r q ≡ ok (c, r')
    → read_intent (file_of r'.control) ≡ ok none
unfolding write_control_state
write_control_state-forgets p now r q c r' h =
    let (control, loaded, next) = >>=-eq-ok (load_control_state p now r) _ h in
    let (amended, changed, more) = >>=-eq-ok (amend p now q control) _ next in
    let (normal, settled, last) =
      >>=-eq-ok
        (normalize_control_state p now r.name r.cfg (to_fields amended) >>= apply_runtime_gate p) _
        more in
    sym (ap (λ (x : Control × Repository). read_intent (file_of x.1.control)) (ok_injective last))
    ∙ no_intent normal
