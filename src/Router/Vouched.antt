-- ===== src/Router/Vouched.antt =====
-- driftdriver/task_router.py: what it takes for a task to be marked done by the router.
use mathlib.Core.List.{Memᴰ}
use driftdriver.Base.{
  ℕ, String, ◌≡◌, refl, inl, inr, Bool, true, false, not, ◌&&◌, Option, none, some, List, [], ◌∷◌,
  arith, Bool-cases, ◌==◌, eq_iff,
}
use driftdriver.Base.Value.{
  Value, str, dict, Fields, Result, ok, err, >>=-eq-ok, ok_injective, truthy, get, is_the_text,
}
use driftdriver.Base.Platform.{Platform}
use driftdriver.Router.Match.{ExecutorConfig, RoutingConfig, match_executor}
use driftdriver.Router.Ready.{node_fields, is_task}
use driftdriver.Router.Act.{
  Answer, got, missed, Outside, Happening, logged, marked_done, marked_failed, Run, Act, return,
  resume, ◌>>=◌, lift, happen, uncaught,
}
use driftdriver.Router.Evidence.{
  requires_delivery_evidence, has_delivery_evidence, verification_error, completion_failure_reason,
}
use driftdriver.Router.Completion.{
  reject, accept, conclude_done, agent_status, judge, status_url, node_id, check_matched,
  check_node, check_all, check_agent_completions,
}

-- The answer of an agent for which its task may be marked done.
pub record Vouches (p : Platform) (node answer : Fields) : Type 0 where
  pub said_done : agent_status p answer ≡ "done"
  pub no_error : truthy (get "error" answer) ≡ false
  pub verified : truthy (verification_error answer) ≡ false
  pub required : Bool
  pub judged : requires_delivery_evidence p node ≡ ok required
  pub evident : required && not (has_delivery_evidence answer) ≡ false

failure_none :
    (p : Platform) (node answer : Fields)
    → agent_status p answer ≡ "done"
    → completion_failure_reason p node answer ≡ ok none
    → Vouches p node answer
unfolding completion_failure_reason
failure_none p node answer said h = elim (Bool-cases (truthy (get "error" answer))) [
  | inl on ↦ cc (rw on at h)
  | inr no_error ↦ elim (Bool-cases (truthy (verification_error answer))) [
    | inl on ↦ cc (rw (no_error, on) at h)
    | inr verified ↦
        let (required, judged, last) =
          >>=-eq-ok (requires_delivery_evidence p node) _ (rw (no_error, verified) at h) in
        record {
          said_done = said;
          no_error = no_error;
          verified = verified;
          required = required;
          judged = judged;
          evident = ground (arith, ok_injective last);
        }
  ]
]

module _ (p : Platform) (o : Outside) (config : RoutingConfig) where
  -- A task in progress that matches an HTTP executor, and what the endpoint of that executor answered.
  pub record Answered (node : Fields) (executor : ExecutorConfig) (answer : Fields) : Type 0 where
    pub in_progress : is_task node && is_the_text "in-progress" (get "status" node) ≡ true
    pub matched : match_executor node config ≡ ok (some executor)
    pub by_http : (executor.kind == "http") ≡ true
    pub answered : o.poll (status_url executor (node_id p node)) ≡ got (dict answer)

  -- The answer of an agent vouches for the task with the id, one of the nodes that were read.
  pub record Vouched (nodes : List Value) (id : String) : Type 0 where
    pub node : Fields
    pub listed : Memᴰ (dict node) nodes
    pub named : node_id p node ≡ id
    pub executor : ExecutorConfig
    pub answer : Fields
    pub told : Answered node executor answer
    pub vouches : Vouches p node answer

  -- Every task that was marked done is vouched for.
  abbrev pub AllVouched : List Value → List Happening → Type 0
  AllVouched nodes [] = Unit
  AllVouched nodes (marked_done id ∷ hs) = Vouched nodes id × AllVouched nodes hs
  AllVouched nodes (_ ∷ hs) = AllVouched nodes hs

module _ (p : Platform) (o : Outside) (config : RoutingConfig) (nodes : List Value) where
  abbrev Holds : Run → Type 0
  Holds r = AllVouched p o config nodes r.happenings

  resume-Holds {ℓ κ} :
      {A : Type ℓ} {B : Type κ} (x : Run × Result A) (f : A → Act B)
      → Holds x.0
      → ((a : A) (r : Run) → Holds r → Holds (f a r).0)
      → Holds (resume x f).0
  resume-Holds (r, ok a) f h k = k a r h
  resume-Holds (r, err e) f h k = h

  -- Two happenings, each with a `wg` call that may raise.
  two-Holds {ℓ} :
      {B : Type ℓ} (h h' : Happening) (m m' : Result (Unit {0})) (b : B) (r : Run)
      → AllVouched p o config nodes (h ∷ r.happenings)
      → AllVouched p o config nodes (h' ∷ h ∷ r.happenings)
      → Holds
          (((happen h >>= λ _. lift m) >>= λ _. happen h' >>= λ _. lift m' >>= λ _. return b) r).0
  two-Holds h h' (err e) m' b r x y = x
  two-Holds h h' (ok u) (err e) b r x y = y
  two-Holds h h' (ok u) (ok v) b r x y = y

  reject-Holds : (id text reason : String) (r : Run) → Holds r → Holds (reject o id text reason r).0
  unfolding reject
  reject-Holds id text reason r h =
      two-Holds (logged id) (marked_failed id reason) (uncaught (o.log id _))
        (uncaught (o.fail id reason)) _ r h h

  accept-Holds :
      (id : String) (answer : Fields) (r : Run)
      → Vouched p o config nodes id
      → Holds r
      → Holds (accept p o id answer r).0
  unfolding accept
  accept-Holds id answer r v h =
      two-Holds (logged id) (marked_done id) (uncaught (o.log id _)) (uncaught (o.finish id)) _ r h
        (v, h)

  conclude-Holds :
      (node : Fields) (x : ExecutorConfig) (answer : Fields) (r : Run)
      → Memᴰ (dict node) nodes
      → Answered p o config node x answer
      → agent_status p answer ≡ "done"
      → Holds r
      → Holds
          ((lift (completion_failure_reason p node answer)
              >>= conclude_done p o (node_id p node) answer)
            r).0
  unfolding conclude_done
  conclude-Holds node x answer r l a said h =
      concluded (completion_failure_reason p node answer) refl
    where
      concluded :
          (m : Result (Option String))
          → completion_failure_reason p node answer ≡ m
          → Holds ((lift m >>= conclude_done p o (node_id p node) answer) r).0
      concluded (err e) q = h
      concluded (ok (some reason)) q = reject-Holds (node_id p node) _ reason r h
      concluded (ok none) q =
          accept-Holds (node_id p node) answer r
            (record {
              node = node;
              listed = l;
              named = refl;
              executor = x;
              answer = answer;
              told = a;
              vouches = failure_none p node answer said q;
            })
            h

  judge-Holds :
      (node : Fields) (x : ExecutorConfig) (answer : Answer) (r : Run)
      → Memᴰ (dict node) nodes
      → is_task node && is_the_text "in-progress" (get "status" node) ≡ true
      → match_executor node config ≡ ok (some x)
      → (x.kind == "http") ≡ true
      → o.poll (status_url x (node_id p node)) ≡ answer
      → Holds r
      → Holds (judge p o node (node_id p node) answer r).0
  unfolding judge
  judge-Holds node x (missed e) r l i m k q h = h
  judge-Holds node x (got (dict answer)) r l i m k q h =
      elim (Bool-cases (agent_status p answer == "done")) [
        | inl done ↦ rw done (
            conclude-Holds node x answer r l
              (record { in_progress = i; matched = m; by_http = k; answered = q })
              ((eq_iff (agent_status p answer) "done").0 done) h)
        | inr other ↦ elim (Bool-cases (agent_status p answer == "failed")) [
          | inl failed ↦ rw (other, failed) (reject-Holds (node_id p node) _ _ r h)
          | inr runs ↦ rw (other, runs) h
        ]
      ]
  judge-Holds node x (got Value.null) r l i m k q h = h
  judge-Holds node x (got (Value.bool b)) r l i m k q h = h
  judge-Holds node x (got (Value.int n)) r l i m k q h = h
  judge-Holds node x (got (Value.real n)) r l i m k q h = h
  judge-Holds node x (got (str s)) r l i m k q h = h
  judge-Holds node x (got (Value.list vs)) r l i m k q h = h

  matched-Holds :
      (node : Fields) (x : Option ExecutorConfig) (r : Run)
      → Memᴰ (dict node) nodes
      → is_task node && is_the_text "in-progress" (get "status" node) ≡ true
      → match_executor node config ≡ ok x
      → Holds r
      → Holds (check_matched p o node x r).0
  unfolding check_matched
  matched-Holds node none r l i m h = h
  matched-Holds node (some x) r l i m h = elim (Bool-cases (x.kind == "http")) [
    | inl http ↦
        rw http (judge-Holds node x (o.poll (status_url x (node_id p node))) r l i m http refl h)
    | inr other ↦ rw other h
  ]

  check_node-Holds :
      (node : Fields) (r : Run)
      → Memᴰ (dict node) nodes
      → Holds r
      → Holds (check_node p o config node r).0
  unfolding check_node
  check_node-Holds node r l h =
      elim (Bool-cases (is_task node && is_the_text "in-progress" (get "status" node))) [
        | inl on ↦ rw on (polled (match_executor node config) refl on)
        | inr off ↦ rw off h
      ]
    where
      polled :
          (m : Result (Option ExecutorConfig))
          → match_executor node config ≡ m
          → is_task node && is_the_text "in-progress" (get "status" node) ≡ true
          → Holds ((lift m >>= check_matched p o node) r).0
      polled (err e) q i = h
      polled (ok x) q i = matched-Holds node x r l i q h

  node-Holds {ℓ} :
      {A : Type ℓ} (v : Value) (r : Run) (f : Fields → Act A)
      → Memᴰ v nodes
      → Holds r
      → ((node : Fields) → Memᴰ (dict node) nodes → Holds (f node r).0)
      → Holds ((lift (node_fields v) >>= f) r).0
  node-Holds (dict node) r f l h k = k node l
  node-Holds Value.null r f l h k = h
  node-Holds (Value.bool b) r f l h k = h
  node-Holds (Value.int n) r f l h k = h
  node-Holds (Value.real n) r f l h k = h
  node-Holds (str s) r f l h k = h
  node-Holds (Value.list vs) r f l h k = h

  check_all-Holds :
      (vs : List Value) (r : Run)
      → ((v : Value) → Memᴰ v vs → Memᴰ v nodes)
      → Holds r
      → Holds (check_all p o config vs r).0
  unfolding check_all
  check_all-Holds [] r l h = h
  check_all-Holds (v ∷ vs) r l h = node-Holds v r _ (l v (Memᴰ.head refl)) h (λ node m.
      resume-Holds (check_node p o config node r) _ (check_node-Holds node r m h) (λ c r h.
        resume-Holds (check_all p o config vs r) _
          (check_all-Holds vs r (λ w i. l w (Memᴰ.tail i)) h) (λ rs r h. h)))

  -- Every task that the poll marks done is one of the given nodes, a task in progress that matches an HTTP
  -- executor, whose endpoint answered with the status done, without an error, without a verification error,
  -- and with evidence of the delivery where the task's tags require it.
  pub check_agent_completions-AllVouched :
      (checks : ℕ)
      → AllVouched p o config nodes
          (check_agent_completions p o config nodes
            (record { checks = checks; happenings = [] })).0.happenings
  unfolding check_agent_completions
  check_agent_completions-AllVouched checks =
      resume-Holds (record { checks = checks; happenings = [] }, o.wg_dir)
        (λ _. check_all p o config nodes) tt (λ _ r h. check_all-Holds nodes r (λ v m. m) h)
