-- ===== src/Control/Lease.antt =====
-- driftdriver/speedriftd_state.py: the window of a lease that `write_control_state` grants.
use driftdriver.Base.{
  ℕ, zero, suc, ◌+◌, ◌≤◌, String, ◌≡◌, refl, ◌∙◌, ◌⊎◌, inl, inr, true, false, ◌||◌, some, is_empty,
  is_in, ltb, ◌=?◌, strip, strip_idem, le→leb, suc-=?-zero, if◌then◌else◌,
}
use driftdriver.Base.Value.{bool, int, pos, str, ok, to_int, or_else}
use driftdriver.Base.Platform.{Platform, field_text}
use driftdriver.Control.State.{
  Control, control_modes, elevated_modes, to_fields, coerce_lease_ttl, parse_iso_timestamp,
}
use driftdriver.Control.Authority.{Verdict, Repository, load_control_state, load_dispatch_authority}
use driftdriver.Control.Write.{Request, microseconds, expiry_text, amend, write_control_state}
use driftdriver.Control.Rules.{
  field_text-str, elevated_cases, lower-strip-elevated, load_control_state-Loaded,
}
use driftdriver.Control.Renew.{Grants, store-Grants, load-Grants}

-- `write_control_state(mode=m, lease_owner=owner, lease_ttl_seconds=ttl, ...)`
abbrev pub grant : String → String → ℕ → String → String → Request
grant m owner ttl source reason = record {
  mode = some m;
  lease_owner = some owner;
  lease_ttl_seconds = some (int (pos ttl));
  release_lease = false;
  source = source;
  reason = reason;
}

parse-iso :
    (p : Platform) (t : ℕ)
    → t ≤ p.last_instant
    → parse_iso_timestamp p (str (field_text p (str (p.iso t)))) ≡ t
unfolding parse_iso_timestamp
parse-iso p t h =
    let trimmed = field_text-str p (p.iso t) ∙ p.strip-iso t in
    rw (trimmed, trimmed, p.iso_filled t, p.replace_z-iso t, p.from_iso-iso t h) refl

expiry_ends :
    (p : Platform) (now ttl : ℕ)
    → now + microseconds ttl ≤ p.last_instant
    → (s : String) × (expiry_text p now ttl ≡ ok s)
      × ((ttl ≡ 0) ⊎ (parse_iso_timestamp p (str (field_text p (str s))) ≡ now + microseconds ttl))
unfolding expiry_text
expiry_ends p now zero fits = ("", refl, inl refl)
expiry_ends p now (suc n) fits =
    let t = now + microseconds (suc n) in
    (p.iso t, rw (suc-=?-zero n, le→leb t p.last_instant fits) refl, inr (parse-iso p t fits))

ttl_again : (n : ℕ) → to_int (or_else (int (pos n)) (int (pos 0))) ≡ ok (pos n)
unfolding to_int
ttl_again zero = refl
ttl_again (suc n) = rw (suc-=?-zero n) refl

known : (m : String) → is_in m elevated_modes ≡ true → is_in m control_modes ≡ true
known m h = elim (elevated_cases m h) [ inl e ↦ rw e refl | inr e ↦ rw e refl ]

amend-Grants :
    (p : Platform) (now : ℕ) (m owner : String) (ttl : ℕ) (source reason : String) (c : Control)
    → is_in m elevated_modes ≡ true
    → is_empty (strip owner) ≡ false
    → now + microseconds ttl ≤ p.last_instant
    → (d : Control) × (amend p now (grant m owner ttl source reason) c ≡ ok d)
      × Grants p m (strip owner) ttl (now + microseconds ttl) d
unfolding amend coerce_lease_ttl to_int
amend-Grants p now m owner ttl source reason c elevated named fits =
    let (s, expires, ends) = expiry_ends p now ttl fits in
    (
      record c {
        updated_at = str (p.iso now);
        mode = str m;
        lease_owner = str (strip owner);
        lease_acquired_at = str (p.iso now);
        lease_ttl_seconds = int (pos ttl);
        lease_ttl_valid = bool true;
        lease_expires_at = str s;
        lease_active = bool true;
        source = str source;
        reason = if is_empty reason then c.reason else str reason;
      },
      rw (lower-strip-elevated m elevated, known m elevated, named, ttl_again ttl, expires) refl,
      record { mode = refl; owner = refl; seconds = refl; valid = refl; ends = ends },
    )

-- A lease of an elevated mode, for an owner that is no blank text and with an end that the platform
-- can print, is stored when it is written over a control state that loads, and from then on dispatch
-- is permitted exactly while the time to live is 0 or the clock stands before its end.
pub lease_window :
    (p : Platform) (now : ℕ) (r : Repository) (m owner : String) (ttl : ℕ) (source reason : String)
    {control : Control}
    → load_control_state p now r ≡ ok control
    → is_in m elevated_modes ≡ true
    → is_empty (strip owner) ≡ false
    → now + microseconds ttl ≤ p.last_instant
    → (c : Control) × (r' : Repository) × (write_control_state p now r
          (grant m owner ttl source reason)
        ≡ ok (c, r'))
      × ((later : ℕ)
          → (v : Verdict) × (load_dispatch_authority p later r' ≡ ok v)
            × (v.enabled ≡ (ttl =? 0 || ltb later (now + microseconds ttl))))
lease_window p now r m owner ttl source reason {control} loaded elevated named fits =
    let o = strip owner in
    let e = now + microseconds ttl in
    let (amended, amends, g) =
      amend-Grants p now m owner ttl source reason control elevated named fits in
    let trimmed = strip_idem owner in
    let l = load_control_state-Loaded p now r loaded in
    let (c, written, h) = store-Grants p m o ttl e elevated named trimmed now r _ loaded amends g in
    (
      c,
      record r { control = some (to_fields c) },
      written,
      λ later. (
        _,
        load-Grants p m o ttl e elevated named trimmed now later _ l.found l.based refl h,
        refl,
      ),
    )
