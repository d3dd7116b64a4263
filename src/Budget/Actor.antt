-- ===== src/Budget/Actor.antt =====
-- driftdriver/actor.py: the classes of actors and what each may do.
use driftdriver.Base.{String, List, [], ◌∷◌, ◌==◌, is_in, if◌then◌else◌}
use driftdriver.Base.Value.{Fault, Result, ok, err}

abbrev pub actor_classes : List String
actor_classes = "human" ∷ "interactive" ∷ "worker" ∷ "daemon" ∷ "lane" ∷ []

-- `DEFAULT_AUTHORITY.get(actor_class, frozenset())`
unfoldable pub default_authority : String → List String
default_authority actor_class =
    if actor_class == "human"
    then "read" ∷ "claim" ∷ "create" ∷ "dispatch" ∷ "modify" ∷ []
    else if actor_class == "interactive"
    then "read" ∷ "claim" ∷ "create" ∷ "modify" ∷ []
    else if actor_class == "worker"
    then "read" ∷ "claim" ∷ "modify" ∷ []
    else if actor_class == "daemon"
    then "read" ∷ "create" ∷ "dispatch" ∷ []
    else if actor_class == "lane"
    then "read" ∷ "create" ∷ []
    else []

pub record Actor : Type 0 where
  pub id : String
  pub actor_class : String
  pub name : String
  pub repo : String

-- `Actor(...)` with the check of `__post_init__`
unfoldable pub make_actor : String → String → String → String → Result Actor
make_actor id actor_class name repo =
    if is_in actor_class actor_classes
    then ok (record { id = id; actor_class = actor_class; name = name; repo = repo })
    else err Fault.value_error
