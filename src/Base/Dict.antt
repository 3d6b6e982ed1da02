-- ===== src/Base/Dict.antt =====
-- Tables by key, as std::map and std::multimap keep them: pairs in the order of insertion.
use Prim.Native.Nat.{ℕ}
use mathlib.Core.Path.{◌≡◌, refl, ap, ◌∙◌}
use mathlib.Core.Logic.{ite}
use mathlib.Core.Bool.{Bool, true, false}
use mathlib.Core.Option.{Option, none, some}
use mathlib.Core.List.{List, [], ◌∷◌, List-discrete}
use native.Mathlib.Decide.{ℕ_discrete}
use native.Mathlib.Omega.{arith}
use async_rpc.Base.Tests.{if◌then◌else◌}

pub record Key (K : Type 0) : Type 0 where
  pub dec : Discrete K

instance unfoldable pub number_key : Key ℕ
number_key = record { dec = ℕ_discrete }

-- A std::string is the list of its bytes.
instance unfoldable pub text_key : Key (List ℕ)
text_key = record { dec = List-discrete ℕ_discrete }

abbrev pub Dict : Type 0 → Type 0 → Type 0
Dict K V = List (K × V)

abbrev pub same : {K : Type 0} ⦃key : Key K⦄ → K → K → Bool
same ⦃key⦄ j k = ite (key.dec j k) true false

pub same_self : {K : Type 0} ⦃key : Key K⦄ (k : K) → same k k ≡ true
same_self k = ground arith

module _ {K V : Type 0} ⦃key : Key K⦄ where
  -- find: the first entry of the key.
  unfoldable pub find : K → Dict K V → Option V
  find k [] = none
  find k ((j, v) ∷ d) = if same j k then some v else find k d

  -- operator[], assigned to.
  unfoldable pub assign : K → V → Dict K V → Dict K V
  assign k v [] = (k, v) ∷ []
  assign k v ((j, w) ∷ d) = if same j k then (j, v) ∷ d else (j, w) ∷ assign k v d

  -- emplace on a table with unique keys: an entry that is there stays.
  unfoldable pub emplace : K → V → Dict K V → Dict K V
  emplace k v [] = (k, v) ∷ []
  emplace k v ((j, w) ∷ d) = if same j k then (j, w) ∷ d else (j, w) ∷ emplace k v d

  -- erase(key)
  unfoldable pub erase : K → Dict K V → Dict K V
  erase k [] = []
  erase k ((j, w) ∷ d) = let rest = erase k d in if same j k then rest else (j, w) ∷ rest

  -- equal_range on a table with repeated keys.
  unfoldable pub equal_range : K → Dict K V → List V
  equal_range k [] = []
  equal_range k ((j, v) ∷ d) = let rest = equal_range k d in if same j k then v ∷ rest else rest

  pub find-here : (k : K) (v : V) (d : Dict K V) → find k ((k, v) ∷ d) ≡ some v
  unfolding find
  find-here k v d = ap (λ b. if b then some v else find k d) (same_self k)

  pub equal_range-here :
      (k : K) (v : V) (d : Dict K V) → equal_range k ((k, v) ∷ d) ≡ v ∷ equal_range k d
  unfolding equal_range
  equal_range-here k v d =
      ap (λ b. if b then v ∷ equal_range k d else equal_range k d) (same_self k)

  pub find-assign :
      (j k : K) (v : V) (d : Dict K V)
      → find j (assign k v d) ≡ (if same k j then some v else find j d)
  unfolding find assign
  find-assign j k v [] = refl
  find-assign j k v (_ ∷ d) = ground (arith, find-assign j k v d)

  pub find-emplace_new :
      (j k : K) (v : V) (d : Dict K V)
      → find k d ≡ none
      → find j (emplace k v d) ≡ (if same k j then some v else find j d)
  unfolding find emplace
  find-emplace_new j k v [] h = refl
  find-emplace_new j k v (_ ∷ d) h = ground (arith, find-emplace_new j k v d)

  pub find-emplace_self :
      (k : K) (v : V) (d : Dict K V) → find k d ≡ none → find k (emplace k v d) ≡ some v
  find-emplace_self k v d h =
      find-emplace_new k k v d h ∙ ap (λ b. if b then some v else find k d) (same_self k)

  pub find-assign_self : (k : K) (v : V) (d : Dict K V) → find k (assign k v d) ≡ some v
  find-assign_self k v d =
      find-assign k k v d ∙ ap (λ b. if b then some v else find k d) (same_self k)

  -- The new value is lost.
  pub emplace_old : (k : K) (v w : V) (d : Dict K V) → find k d ≡ some w → emplace k v d ≡ d
  unfolding find emplace
  emplace_old k v w [] h = cc
  emplace_old k v w (_ ∷ d) h = ground (arith, emplace_old k v w d)

  pub find-erase :
      (j k : K) (d : Dict K V) → find j (erase k d) ≡ (if same k j then none else find j d)
  unfolding find erase
  find-erase j k [] = ground arith
  find-erase j k (_ ∷ d) = ground (arith, find-erase j k d)

  pub erase-emplace : (k : K) (v : V) (d : Dict K V) → find k d ≡ none → erase k (emplace k v d) ≡ d
  unfolding find emplace erase
  erase-emplace k v [] h = ground arith
  erase-emplace k v (_ ∷ d) h = ground (arith, erase-emplace k v d, erase_none k d)
    where
      erase_none : (k : K) (d : Dict K V) → find k d ≡ none → erase k d ≡ d
      erase_none k [] h = refl
      erase_none k (_ ∷ d) h = ground (arith, erase_none k d)
