-- ===== src/Router/Picks.antt =====
-- driftdriver/task_router.py: what it takes for a task to be ready.
use driftdriver.Base.{
  ℕ, String, ◌≡◌, ◌≢◌, refl, ◌↔◌, sym, ◌∙◌, ap, subst, Bool, true, false, ◌⊎◌, inl, inr, Option,
  List, [], ◌∷◌, arith, Bool-cases, eq_iff, ◌==◌,
}
use driftdriver.Base.Value.{
  Value, null, str, list, dict, Values, nil, cons, Fields, ok, >>=-eq-ok, ok_injective, get, get_or,
  truthy, is_the_text,
}
use driftdriver.Directive.Command.{each}
use driftdriver.Router.Ready.{
  statuses, status_of, is_terminal, hashed, dependency_met, all_met, not_before_allows_dispatch,
  is_candidate, is_ready, ready_among, find_ready_tasks,
}

-- Every dependency is done or abandoned by the table of statuses.
abbrev pub AllMet : List (Value × Value) → Values → Type 0
AllMet table nil = Unit
AllMet table (cons d ds) =
    ((status_of d (str "") table ≡ str "done") ⊎ (status_of d (str "") table ≡ str "abandoned"))
    × AllMet table ds

-- The node is a task that is open, not paused and due, and whose dependencies are all met.
pub record IsReady (instant : String → Option ℕ) (clock : ℕ) (table : List (Value × Value))
    (n : Fields) : Type 0 where
  pub kind : get "kind" n ≡ str "task"
  pub open_now : get "status" n ≡ str "open"
  pub running : truthy (get "paused" n) ≡ false
  pub due : not_before_allows_dispatch instant clock n ≡ true
  pub after : Values
  pub listed : each (get_or "after" (list nil) n) ≡ ok after
  pub met : AllMet table after

-- The second list holds the nodes of the first that are ready, in their order, and no other.
pub data Picks (instant : String → Option ℕ) (clock : ℕ) (table : List (Value × Value))
    : List Value → List Fields → Type 0 where
  none_left : Picks instant clock table [] []
  take :
      {n : Fields} {vs : List Value} {ns : List Fields}
      → IsReady instant clock table n
      → Picks instant clock table vs ns
      → Picks instant clock table (dict n ∷ vs) (n ∷ ns)
  pass :
      {n : Fields} {vs : List Value} {ns : List Fields}
      → (IsReady instant clock table n → ⊥)
      → Picks instant clock table vs ns
      → Picks instant clock table (dict n ∷ vs) ns

the_text : (s : String) (v : Value) → is_the_text s v ≡ true → v ≡ str s
the_text s (str t) h = ap str ((eq_iff t s).0 h)
the_text s null h = cc
the_text s _ h = cc

text_itself : (s : String) (v : Value) → v ≡ str s → is_the_text s v ≡ true
text_itself s v e = rw e ((eq_iff s s).1 refl)

is_terminal-true : (v : Value) → is_terminal v ≡ ok true → (v ≡ str "done") ⊎ (v ≡ str "abandoned")
is_terminal-true (str s) h = elim (Bool-cases (s == "done")) [
  | inl one ↦ inl (ap str ((eq_iff s "done").0 one))
  | inr other ↦ elim (Bool-cases (s == "abandoned")) [
    | inl two ↦ inr (ap str ((eq_iff s "abandoned").0 two))
    | inr neither ↦ cc (rw (other, neither) at h)
  ]
]
is_terminal-true null h = cc
is_terminal-true _ h = cc

is_terminal-false :
    (v : Value) → is_terminal v ≡ ok false → (v ≢ str "done") × (v ≢ str "abandoned")
is_terminal-false v h = (λ e. cc (rw e at h), λ e. cc (rw e at h))

hashed_same : (d : Value) {key : Value} → hashed d ≡ ok key → key ≡ d
hashed_same d h = ground arith

met_cases :
    (table : List (Value × Value)) (d : Value) (b : Bool)
    → dependency_met table d ≡ ok b
    → is_terminal (status_of d (str "") table) ≡ ok b
met_cases table d b h =
    let (key, same, last) = >>=-eq-ok (hashed d) _ h in rw (hashed_same d same) at last

-- The answer of the loop over the dependencies is right.
all_met-AllMet :
    (table : List (Value × Value)) (ds : Values) (b : Bool)
    → all_met table ds ≡ ok b
    → (b ≡ true) ↔ AllMet table ds
unfolding all_met
all_met-AllMet table nil b h = (λ _. tt, λ _. sym (ok_injective h))
all_met-AllMet table (cons d ds) true h =
    let (met, one, rest) = >>=-eq-ok (dependency_met table d) _ h in
    elim (Bool-cases met) [
      | inl on ↦ (
        λ _. (
          is_terminal-true _ (met_cases table d true (rw on at one)),
          (all_met-AllMet table ds true (rw on at rest)).0 refl,
        ),
        λ _. refl,
      )
      | inr off ↦ cc (rw off at rest)
    ]
all_met-AllMet table (cons d ds) false h =
    let (met, one, rest) = >>=-eq-ok (dependency_met table d) _ h in
    elim (Bool-cases met) [
      | inl on ↦ (λ e. cc, λ all. (all_met-AllMet table ds false (rw on at rest)).1 all.1)
      | inr off ↦
          let never = is_terminal-false _ (met_cases table d false (rw off at one)) in
          (λ e. cc, λ all. elim all.0 [ inl e ↦ absurd (never.0 e) | inr e ↦ absurd (never.1 e) ])
    ]

module _ (instant : String → Option ℕ) (clock : ℕ) (table : List (Value × Value)) where
  -- The tests before the dependencies, as equations.
  candidate_facts :
      (n : Fields)
      → is_candidate instant clock n ≡ true
      → (get "kind" n ≡ str "task")
        × (get "status" n ≡ str "open")
        × (truthy (get "paused" n) ≡ false)
        × (not_before_allows_dispatch instant clock n ≡ true)
  candidate_facts n h = (
    the_text "task" (get "kind" n) (ground arith),
    the_text "open" (get "status" n) (ground arith),
    ground arith,
    ground arith,
  )

  candidate_of : (n : Fields) → IsReady instant clock table n → is_candidate instant clock n ≡ true
  candidate_of n q =
      rw (text_itself "task" _ q.kind, text_itself "open" _ q.open_now, q.running, q.due) refl

  is_ready-IsReady :
      (n : Fields) (b : Bool)
      → is_ready instant clock table n ≡ ok b
      → (b ≡ true) ↔ IsReady instant clock table n
  unfolding is_ready
  is_ready-IsReady n b h = elim (Bool-cases (is_candidate instant clock n)) [
    | inr off ↦ (λ on. cc (ok_injective (rw off at h), on), λ q. cc (candidate_of n q, off))
    | inl on ↦
        let (deps, listed, rest) = >>=-eq-ok (each (get_or "after" (list nil) n)) _ (rw on at h) in
        let met = all_met-AllMet table deps b rest in
        let (kind, open_now, running, due) = candidate_facts n on in
        (
          λ e. record {
            kind = kind;
            open_now = open_now;
            running = running;
            due = due;
            after = deps;
            listed = listed;
            met = met.0 e;
          },
          λ q. met.1 (subst (AllMet table) (ok_injective (sym q.listed ∙ listed)) q.met),
        )
  ]

  ready_among-Picks :
      (vs : List Value) (ns : List Fields)
      → ready_among instant clock table vs ≡ ok ns
      → Picks instant clock table vs ns
  unfolding ready_among
  ready_among-Picks [] ns h = rw (← ok_injective h) none_left
  ready_among-Picks (dict n ∷ vs) ns h =
      let (b, one, next) = >>=-eq-ok (is_ready instant clock table n) _ h in
      let (rest, others, last) = >>=-eq-ok (ready_among instant clock table vs) _ next in
      let ih = ready_among-Picks vs rest others in
      let right = is_ready-IsReady n b one in
      elim (Bool-cases b) [
        | inl on ↦ rw (← ok_injective (rw on at last)) (take (right.0 on) ih)
        | inr off ↦ rw (← ok_injective (rw off at last)) (pass (λ q. cc (right.1 q, off)) ih)
      ]
  ready_among-Picks (null ∷ vs) ns h = cc
  ready_among-Picks (_ ∷ vs) ns h = cc

-- What `_find_ready_tasks` returns are the tasks that are open, not paused, due and without an unmet
-- dependency by the statuses of all tasks in the graph, every one of them, in the order of the file.
pub find_ready_tasks-Picks :
    (instant : String → Option ℕ) (clock : ℕ) (nodes : List Value) (ready : List Fields)
    → find_ready_tasks instant clock nodes ≡ ok ready
    → (table : List (Value × Value)) × (statuses nodes ≡ ok table)
      × Picks instant clock table nodes ready
unfolding find_ready_tasks
find_ready_tasks-Picks instant clock nodes ready h =
    let (table, e, rest) = >>=-eq-ok (statuses nodes) _ h in
    (table, e, ready_among-Picks instant clock table nodes ready rest)
