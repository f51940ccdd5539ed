-- ===== src/Controller/Effects.antt =====
-- A Go function with effects: it passes the outside world on, and leaves the list of the calls that
-- it made to it, in their order.
use namespace_resizer.Prelude.{List, [], ◌∷◌, ◌++◌}

pub record Ran (W C A : Type 0) : Type 0 where
  pub value : A
  pub world : W
  pub calls : List C

abbrev pub Action : Type 0 → Type 0 → Type 0 → Type 0
Action W C A = W → Ran W C A

module _ {W C A : Type 0} where
  abbrev pub pure : A → Action W C A
  pure a w = record { value = a; world = w; calls = [] }

  -- A call that is recorded.
  abbrev pub perform : C → (W → A × W) → Action W C A
  perform c f w = let (a, w') = f w in record { value = a; world = w'; calls = c ∷ [] }

  -- A call that is not recorded: it reads.
  abbrev pub observe : (W → A × W) → Action W C A
  observe f w = let (a, w') = f w in record { value = a; world = w'; calls = [] }

infixl 5 ◌>>=◌ ◌>>◌
abbrev pub ◌>>=◌ : {W C A B : Type 0} → Action W C A → (A → Action W C B) → Action W C B
◌>>=◌ m f w =
    let first = m w in
    let next = f first.value first.world in
    record { value = next.value; world = next.world; calls = first.calls ++ next.calls }

abbrev pub ◌>>◌ : {W C A B : Type 0} → Action W C A → Action W C B → Action W C B
m >> k = m >>= λ _. k
