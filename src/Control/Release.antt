-- ===== src/Control/Release.antt =====
-- driftdriver/speedriftd_state.py: the release of a lease, and the modes without dispatch.
use driftdriver.Base.{
  ℕ, String, ◌≡◌, refl, sym, ap, subst, ◌∙◌, ◌⊎◌, inl, inr, Bool, true, false, Option, none, some,
  List, [], ◌∷◌, eq_iff, Bool-cases, arith, is_in, strip, lower,
}
use driftdriver.Base.Value.{Value, str, ok, ◌>>=◌, ok-IsClean, >>=-eq-ok, ok_injective}
use driftdriver.Base.Platform.{Platform, str_of, field_text, word}
use driftdriver.Control.State.{Control, control_modes, to_fields}
use driftdriver.Control.Normalize.{
  default_control, settle_mode, settle, normalize, normalize_control_state,
}
use driftdriver.Control.Authority.{
  Verdict, apply_runtime_gate, Repository, load_control_state, load_dispatch_authority,
}
use driftdriver.Control.Write.{Request, set_ttl, set_lease, set_mode, amend, write_control_state}
use driftdriver.Control.Rules.{
  update-to_fields, normalize-Normalized, apply_runtime_gate-Gated, load_control_state-Loaded,
}
use driftdriver.Control.Gate.{Permits, load_dispatch_authority-IsLive}
use driftdriver.Control.Total.{load_dispatch_authority_total}

abbrev pub quiet_modes : List String
quiet_modes = "manual" ∷ "observe" ∷ []

-- A dictionary with no owner of the lease, or with a mode that does not dispatch.
abbrev IsWithdrawn : Control → Type 0
IsWithdrawn c =
    (c.lease_owner ≡ str "") ⊎ ((m : String) × (c.mode ≡ str m) × (is_in m quiet_modes ≡ true))

quiet_cases : (m : String) → is_in m quiet_modes ≡ true → (m ≡ "manual") ⊎ (m ≡ "observe")
quiet_cases m h = ground (arith, eq_iff m "manual", eq_iff m "observe")

settle_mode-quiet :
    (p : Platform) (c : Control) (m : String)
    → c.mode ≡ str m
    → is_in m quiet_modes ≡ true
    → settle_mode p c ≡ str m
unfolding settle_mode str_of lower strip
settle_mode-quiet p c m e h = elim (quiet_cases m h) [
  | inl x ↦ rw (e, x) refl
  | inr x ↦ rw (e, x) refl
]

settle-IsWithdrawn :
    (p : Platform) (now : ℕ) (name : String) (c : Control) (enabled : Bool) (ttl : ℕ)
    (parsed : Bool)
    → IsWithdrawn c
    → IsWithdrawn (settle p now name c (settle_mode p c) enabled ttl parsed)
unfolding settle field_text strip
settle-IsWithdrawn p now name c enabled ttl parsed (inl e) = inl (rw e refl)
settle-IsWithdrawn p now name c enabled ttl parsed (inr (m, e, h)) =
    inr (m, settle_mode-quiet p c m e h, h)

normalize-IsWithdrawn :
    (p : Platform) (now : ℕ) (name : String) (c : Control) {d : Control}
    → normalize p now name c ≡ ok d
    → IsWithdrawn c
    → IsWithdrawn d
normalize-IsWithdrawn p now name c h w =
    let n = normalize-Normalized p now name c h in
    subst IsWithdrawn n.settled (settle-IsWithdrawn p now name c n.enabled n.ttl n.parsed w)

gate-IsWithdrawn :
    (p : Platform) (c : Control) {d : Control}
    → apply_runtime_gate p c ≡ ok d
    → IsWithdrawn c
    → IsWithdrawn d
gate-IsWithdrawn p c h w = subst IsWithdrawn (apply_runtime_gate-Gated p c h).set w

Permits-not-IsWithdrawn : (p : Platform) (c : Control) → Permits p c → IsWithdrawn c → ⊥
unfolding field_text strip word lower
Permits-not-IsWithdrawn p c q (inl e) = absurd (cc (rw e at q.owned))
Permits-not-IsWithdrawn p c q (inr (m, e, h)) = elim (quiet_cases m h) [
  | inl x ↦ cc (rw (e, x) at q.elevated)
  | inr x ↦ cc (rw (e, x) at q.elevated)
]

set_ttl-mode : (v : Option Value) (c : Control) {d : Control} → set_ttl v c ≡ ok d → d.mode ≡ c.mode
unfolding set_ttl
set_ttl-mode none c h = ground arith
set_ttl-mode (some v) c h = ground arith

set_lease-mode :
    (p : Platform) (now : ℕ) (q : Request) (c : Control) {d : Control}
    → set_lease p now q c ≡ ok d
    → d.mode ≡ c.mode
unfolding set_lease
set_lease-mode p now q c h = ground arith

set_lease-release :
    (p : Platform) (now : ℕ) (q : Request) (c : Control) {d : Control}
    → set_lease p now q c ≡ ok d
    → q.release_lease ≡ true
    → d.lease_owner ≡ str ""
unfolding set_lease
set_lease-release p now q c h w = ground arith

-- A request that releases the lease, or sets a mode that does not dispatch.
abbrev pub Withdraws : Request → Type 0
Withdraws q =
    (q.release_lease ≡ true)
    ⊎ ((m : String) × (q.mode ≡ some m) × (is_in (lower (strip m)) quiet_modes ≡ true))

quiet_known : (m : String) → is_in m quiet_modes ≡ true → is_in m control_modes ≡ true
quiet_known m h = elim (quiet_cases m h) [ inl e ↦ rw e refl | inr e ↦ rw e refl ]

amend-IsWithdrawn :
    (p : Platform) (now : ℕ) (q : Request) (c : Control) {d : Control}
    → amend p now q c ≡ ok d
    → Withdraws q
    → IsWithdrawn d
unfolding amend
amend-IsWithdrawn p now q c {d} h w =
    let (c', e', rest) = >>=-eq-ok (set_ttl q.lease_ttl_seconds (set_mode q.mode c)) _ h in
    let (c'', e'', last) = >>=-eq-ok (set_lease p now q c') _ rest in
    let stamped = ok_injective last in
    let mode_kept =
      sym (ap (λ (x : Control). x.mode) stamped)
      ∙ set_lease-mode p now q c' e''
      ∙ set_ttl-mode q.lease_ttl_seconds (set_mode q.mode c) e' in
    elim w [
      | inl released ↦ inl (
          sym (ap (λ (x : Control). x.lease_owner) stamped)
          ∙ set_lease-release p now q c' e'' released)
      | inr (m, given, quiet) ↦ inr (
        lower (strip m),
        mode_kept ∙ (rw (given, quiet_known (lower (strip m)) quiet) refl),
        quiet,
      )
    ]

write-IsWithdrawn :
    (p : Platform) (now : ℕ) (r r' : Repository) (q : Request) (c : Control)
    → write_control_state p now r q ≡ ok (c, r')
    → Withdraws q
    → (r'.located ≡ ok tt) × (r'.control ≡ some (to_fields c)) × IsWithdrawn c
unfolding write_control_state normalize_control_state
write-IsWithdrawn p now r r' q c h w =
    let (control, loaded, rest) = >>=-eq-ok (load_control_state p now r) _ h in
    let (amended, amends, rest') = >>=-eq-ok (amend p now q control) _ rest in
    let (d, chain, last) =
      >>=-eq-ok
        (normalize_control_state p now r.name r.cfg (to_fields amended) >>= apply_runtime_gate p) _
        rest' in
    let (middle, normal, gated) =
      >>=-eq-ok (normalize_control_state p now r.name r.cfg (to_fields amended)) _ chain in
    let (base, based, normal') = >>=-eq-ok (default_control p now r.name r.cfg) _ normal in
    let pair = ok_injective last in
    let same : d ≡ c = ap (λ (x : Control × Repository). x.0) pair in
    let file = sym (ap (λ (x : Control × Repository). x.1.control) pair) in
    let gone = gate-IsWithdrawn p middle gated (
      normalize-IsWithdrawn p now r.name amended (rw update-to_fields at normal')
        (amend-IsWithdrawn p now q control amends w)) in
    (
      sym (ap (λ (x : Control × Repository). x.1.located) pair)
          ∙ (load_control_state-Loaded p now r loaded).found,
      file ∙ ap (λ (x : Control). some (to_fields x)) same,
      subst IsWithdrawn same gone,
    )

load-IsWithdrawn :
    (p : Platform) (now : ℕ) (r : Repository) (c : Control) {d : Control}
    → r.control ≡ some (to_fields c)
    → IsWithdrawn c
    → load_control_state p now r ≡ ok d
    → IsWithdrawn d
load-IsWithdrawn p now r c stored gone loaded =
    let l = load_control_state-Loaded p now r loaded in
    gate-IsWithdrawn p l.middle l.gated
      (normalize-IsWithdrawn p now r.name c (rw (stored, update-to_fields) at l.normal) gone)

-- After a write that releases the lease, or sets the mode to manual or observe, every later load
-- returns a verdict, and the verdict denies dispatch.
pub withdrawal_denies :
    (p : Platform) (now later : ℕ) (r r' : Repository) (q : Request) (c : Control)
    → write_control_state p now r q ≡ ok (c, r')
    → Withdraws q
    → (v : Verdict) × (load_dispatch_authority p later r' ≡ ok v) × (v.enabled ≡ false)
withdrawal_denies p now later r r' q c h w =
    let (found, stored, gone) = write-IsWithdrawn p now r r' q c h w in
    let (v, e) = load_dispatch_authority_total p later r' (rw found (ok-IsClean tt)) in
    (
      v,
      e,
      elim (Bool-cases v.enabled) [
        | inl on ↦
            let (d, loaded, permits, _) = load_dispatch_authority-IsLive p later r' v e on in
            absurd (
              Permits-not-IsWithdrawn p d permits
                (load-IsWithdrawn p later r' c stored gone loaded))
        | inr off ↦ off
      ],
    )
