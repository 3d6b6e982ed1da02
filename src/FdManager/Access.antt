-- ===== src/FdManager/Access.antt =====
-- What getFdContext and delFdContext of src/fd_manager.cc find, and what they leave alone.
use async_rpc.Base.{
  ℕ, zero, suc, ◌<◌, ◌≤◌, leb, if◌then◌else◌, arith, Bool, true, false, not, ◌≡◌, ◌≢◌, refl,
}
use async_rpc.Base.{
  List, [], ◌∷◌, ◌++◌, length, length-append, length-set, get_elem?, get_elem?-set_self,
  get_elem?-set_ne, set, Option, none, some, ok, err, bad_index,
}
use async_rpc.Base.Int.{pos}
use async_rpc.FdManager.{
  FdContext, System, new_context, FdManager, element, beyond, entry, assign, is_set, look, create,
  get_fd_context, del_fd_context,
}

-- The manager with a context added, and an entry of the list that points to it.
abbrev with_context : FdManager → ℕ → FdContext → FdManager
with_context m n c = record {
  contexts = m.contexts ++ (c ∷ []);
  fd_context_list = set (m.fd_context_list) n (some (length (m.contexts)));
}

get_elem?-some {ℓ} :
    {A : Type ℓ} (xs : List A) (n : ℕ) → n < length xs → (v : A) × (get_elem? xs n ≡ some v)
get_elem?-some [] n h = absurd (omega arith)
get_elem?-some (x ∷ xs) zero h = (x, refl)
get_elem?-some (x ∷ xs) (suc n) h = get_elem?-some xs n (omega arith)

-- The entry of a descriptor, none too when the list is too short.
abbrev pub context_of : FdManager → ℕ → Option (Option ℕ)
context_of m n = get_elem? (m.fd_context_list) n

beyond-false : (m : FdManager) (n : ℕ) → n < length (m.fd_context_list) → beyond m (pos n) ≡ false
unfolding beyond
beyond-false m n h = ground arith

beyond-true : (m : FdManager) (n : ℕ) → length (m.fd_context_list) ≤ n → beyond m (pos n) ≡ true
unfolding beyond
beyond-true m n h = ground arith

-- Under the read lock a set entry is returned, and an empty one too when none is to be made.
look_set :
    (m : FdManager) (n : ℕ) (auto_create : Bool) {a : ℕ}
    → n < length (m.fd_context_list)
    → context_of m n ≡ some (some a)
    → look m (pos n) auto_create ≡ ok (some (some a))
unfolding look entry element is_set
look_set m n auto_create h e = rw (beyond-false m n h, e) refl

look_null :
    (m : FdManager) (n : ℕ) (auto_create : Bool)
    → n < length (m.fd_context_list)
    → context_of m n ≡ some none
    → look m (pos n) auto_create ≡ ok (if not auto_create then some none else none)
unfolding look entry element is_set
look_null m n auto_create h e = rw (beyond-false m n h, e) refl

look_beyond :
    (m : FdManager) (n : ℕ) (auto_create : Bool)
    → length (m.fd_context_list) ≤ n
    → look m (pos n) auto_create ≡ ok (if not auto_create then some none else none)
unfolding look
look_beyond m n auto_create h = rw (beyond-true m n h) refl

module _ {Os : Type 0} (system : System Os) where
  create_lem :
      (m : FdManager) (n : ℕ) (os : Os)
      → n < length (m.fd_context_list)
      → create system m (pos n) os
        ≡ ok (
          some (length (m.contexts)),
          with_context m n ((new_context system (pos n) os).0),
          (new_context system (pos n) os).1,
        )
  unfolding create assign
  create_lem m n os h =
      let le : leb (length (m.fd_context_list)) n ≡ false = ground arith in rw (le) refl

  create_beyond :
      (m : FdManager) (n : ℕ) (os : Os)
      → length (m.fd_context_list) ≤ n
      → create system m (pos n) os ≡ err bad_index
  unfolding create assign
  create_beyond m n os h =
      let le : leb (length (m.fd_context_list)) n ≡ true = ground arith in rw (le) refl

  -- A set entry is returned, whether a context may be made or not.
  get_fd_context_set :
      (m : FdManager) (n : ℕ) (auto_create : Bool) (os : Os) {a : ℕ}
      → n < length (m.fd_context_list)
      → context_of m n ≡ some (some a)
      → get_fd_context system m (pos n) auto_create os ≡ ok (some a, m, os)
  unfolding get_fd_context
  get_fd_context_set m n auto_create os h e = rw (look_set m n auto_create h e) refl

  -- An empty entry gets a new context.
  get_fd_context_null :
      (m : FdManager) (n : ℕ) (os : Os)
      → n < length (m.fd_context_list)
      → context_of m n ≡ some none
      → get_fd_context system m (pos n) true os
        ≡ ok (
          some (length (m.contexts)),
          with_context m n ((new_context system (pos n) os).0),
          (new_context system (pos n) os).1,
        )
  unfolding get_fd_context
  get_fd_context_null m n os h e = rw (look_null m n true h e) (create_lem m n os h)

  get_fd_context_none :
      (m : FdManager) (n : ℕ) (os : Os)
      → n < length (m.fd_context_list)
      → context_of m n ≡ some none
      → get_fd_context system m (pos n) false os ≡ ok (none, m, os)
  unfolding get_fd_context
  get_fd_context_none m n os h e = rw (look_null m n false h e) refl

  -- What a call with auto_create gives: the context stays the descriptor's, and others keep theirs.
  abbrev pub Gives : FdManager → ℕ → Os → Type 0
  Gives m n os =
      (a : ℕ) × (m' : FdManager) × (os' : Os) × (get_fd_context system m (pos n) true os
        ≡ ok (some a, m', os'))
      × (context_of m' n ≡ some (some a))
      × (length (m'.fd_context_list) ≡ length (m.fd_context_list))
      × ((k : ℕ) → n ≢ k → context_of m' k ≡ context_of m k)

  gives :
      (m : FdManager) (n : ℕ) (os : Os) (p : Option ℕ)
      → n < length (m.fd_context_list)
      → context_of m n ≡ some p
      → Gives m n os
  gives m n os none h e = (
    length (m.contexts),
    with_context m n ((new_context system (pos n) os).0),
    (new_context system (pos n) os).1,
    get_fd_context_null m n os h e,
    get_elem?-set_self (m.fd_context_list) n (some (length (m.contexts))) h,
    length-set (m.fd_context_list) n (some (length (m.contexts))),
    λ k ne. get_elem?-set_ne (m.fd_context_list) (some (length (m.contexts))) ne,
  )
  gives m n os (some a) h e = (a, m, os, get_fd_context_set m n true os h e, e, refl, λ k ne. refl)

  -- For a descriptor within the list, getFdContext with auto_create succeeds with a context; a
  -- later call for it, auto_create or not, returns the same one and changes nothing; the list
  -- keeps its length and the entry of any other descriptor.
  pub get_fd_context-twice :
      (m : FdManager) (n k : ℕ) (os later : Os) (auto_create : Bool)
      → n < length (m.fd_context_list)
      → n ≢ k
      → (a : ℕ) × (m' : FdManager) × (os' : Os) × (get_fd_context system m (pos n) true os
          ≡ ok (some a, m', os'))
        × (get_fd_context system m' (pos n) auto_create later ≡ ok (some a, m', later))
        × (length (m'.fd_context_list) ≡ length (m.fd_context_list))
        × (context_of m' k ≡ context_of m k)
  get_fd_context-twice m n k os later auto_create h ne =
      let (p, e) = get_elem?-some (m.fd_context_list) n h in
      let (a, m', os', run, now, len, others) = gives m n os p h e in
      (
        a,
        m',
        os',
        run,
        get_fd_context_set m' n auto_create later (omega (arith, len)) now,
        len,
        others k ne,
      )

  -- For a descriptor past the end of the list, getFdContext returns null without auto_create, and
  -- with it writes out of bounds.
  pub get_fd_context-past_end :
      (m : FdManager) (n : ℕ) (os : Os)
      → length (m.fd_context_list) ≤ n
      → (get_fd_context system m (pos n) false os ≡ ok (none, m, os))
        × (get_fd_context system m (pos n) true os ≡ err bad_index)
  unfolding get_fd_context
  get_fd_context-past_end m n os h =
      (rw (look_beyond m n false h) refl, rw (look_beyond m n true h) (create_beyond m n os h))

  del_lem :
      (m : FdManager) (n : ℕ)
      → n < length (m.fd_context_list)
      → del_fd_context m (pos n)
        ≡ ok record { contexts = m.contexts; fd_context_list = set (m.fd_context_list) n none }
  unfolding del_fd_context entry element assign
  del_lem m n h =
      let (p, e) = get_elem?-some (m.fd_context_list) n h in
      let le : leb (length (m.fd_context_list)) n ≡ false = ground arith in
      rw (beyond-false m n h, e, le) refl

  -- After delFdContext of a descriptor within the list, which succeeds, getFdContext returns null
  -- for it without auto_create, and with it a context at a new address; any other descriptor keeps
  -- its entry.
  pub get_fd_context-del_fd_context :
      (m : FdManager) (n k : ℕ) (os : Os)
      → n < length (m.fd_context_list)
      → n ≢ k
      → (m' : FdManager) × (m'' : FdManager) × (os' : Os) × (del_fd_context m (pos n) ≡ ok m')
        × (get_fd_context system m' (pos n) false os ≡ ok (none, m', os))
        × (get_fd_context system m' (pos n) true os ≡ ok (some (length (m.contexts)), m'', os'))
        × (context_of m' k ≡ context_of m k)
  get_fd_context-del_fd_context m n k os h ne =
      let m' : FdManager = record {
        contexts = m.contexts;
        fd_context_list = set (m.fd_context_list) n none;
      } in
      let h' : n < length (m'.fd_context_list) =
        omega (arith, length-set (m.fd_context_list) n none) in
      let e = get_elem?-set_self (m.fd_context_list) n none h in
      (
        m',
        with_context m' n ((new_context system (pos n) os).0),
        (new_context system (pos n) os).1,
        del_lem m n h,
        get_fd_context_none m' n os h' e,
        get_fd_context_null m' n os h' e,
        get_elem?-set_ne (m.fd_context_list) none ne,
      )

  -- When two threads both find an empty entry under the read lock, each makes a context for the
  -- descriptor, and the list ends with the second one: the first thread has another context than
  -- the list.
  pub create-race :
      (m : FdManager) (n : ℕ) (os : Os)
      → n < length (m.fd_context_list)
      → context_of m n ≡ some none
      → (look m (pos n) true ≡ ok none)
        × ((a b : ℕ) × (m' m'' : FdManager) × (os' os'' : Os) × (create system m (pos n) os
              ≡ ok (some a, m', os'))
            × (create system m' (pos n) os' ≡ ok (some b, m'', os''))
            × (context_of m'' n ≡ some (some b))
            × (a < b))
  create-race m n os h e =
      let m' = with_context m n ((new_context system (pos n) os).0) in
      let os' = (new_context system (pos n) os).1 in
      let a = length (m.contexts) in
      let h' : n < length (m'.fd_context_list) =
        omega (arith, length-set (m.fd_context_list) n (some a)) in
      (
        look_null m n true h e,
        (
          a,
          length (m'.contexts),
          m',
          with_context m' n ((new_context system (pos n) os').0),
          os',
          (new_context system (pos n) os').1,
          create_lem m n os h,
          create_lem m' n os' h',
          get_elem?-set_self (m'.fd_context_list) n (some (length (m'.contexts))) h',
          omega (arith, length-append (m.contexts) ((new_context system (pos n) os).0 ∷ [])),
        ),
      )
