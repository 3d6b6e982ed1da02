-- ===== src/Hook/Options/Nonblock.antt =====
-- The O_NONBLOCK that a program sees through the hooks of src/hook.cc, and the one of the system.
use async_rpc.Base.{ℕ, Bool, true, false, arith, Bool-cases, Option-cases}
use async_rpc.Base.{
  get_elem?, get_elem?-set_there, Option, none, some, Error, Result, ok, err, ◌>>=◌, ◌||◌,
}
use async_rpc.Base.{◌≡◌, refl, sym, ap, ◌∙◌, ◌⊎◌, inl, inr, not, if◌then◌else◌}
use async_rpc.Base.Int.{ℤ, pos, negsuc}
use async_rpc.FdManager.{FdContext, FdManager, System, is_set, look, beyond, entry, get_fd_context}
use async_rpc.Hook.Options.{
  has_nonblock, with_nonblock, Files, is_hooked, found, pointed, valued, change, set_flags_on,
  get_flags_on, fcntl_setfl, fcntl_getfl,
}

has-with_nonblock : (b : Bool) (arg : ℕ) → has_nonblock (with_nonblock b arg) ≡ b
unfolding with_nonblock
has-with_nonblock true arg = ground arith
has-with_nonblock false arg = ground arith

abbrev Looked : Result (Option (Option ℕ)) → Type 0
Looked r = ((e : Error) × (r ≡ err e)) ⊎ ((p : Option ℕ) × (r ≡ ok (some p)))

entry-Looked :
    (r : Result (Option ℕ))
    → Looked (r >>= λ p. ok (if is_set p || not false then some p else none))
unfolding is_set
entry-Looked (err e) = inl (e, refl)
entry-Looked (ok none) = inr (none, refl)
entry-Looked (ok (some a)) = inr (some a, refl)

-- Without auto_create, getFdContext only looks.
look-Looked : (m : FdManager) (fd : ℤ) → Looked (look m fd false)
unfolding look
look-Looked m fd = elim (Bool-cases (beyond m fd)) [
  | inl far ↦ inr (none, rw far refl)
  | inr near ↦ rw near (entry-Looked (entry m fd))
]

look-change :
    (m : FdManager) (i : ℕ) (c : FdContext) (fd : ℤ)
    → look (change m i c) fd false ≡ look m fd false
unfolding look beyond entry
look-change m i c (pos n) = refl
look-change m i c (negsuc n) = refl

module _ {Os : Type 0} (system : System Os) where
  found_at :
      (m : FdManager) (fd : ℤ) (os : Os) (p : Option ℕ)
      → look m fd false ≡ ok (some p)
      → found system m fd os ≡ pointed m.contexts p
  unfolding found get_fd_context
  found_at m fd os p h = rw h refl

  not_found :
      (m : FdManager) (fd : ℤ) (os : Os) (e : Error)
      → look m fd false ≡ err e
      → found system m fd os ≡ err e
  unfolding found get_fd_context
  not_found m fd os e h = rw h refl

  pointed-change :
      (m : FdManager) (p : Option ℕ) (i : ℕ) (c c' : FdContext)
      → pointed m.contexts p ≡ ok (some (i, c))
      → pointed (change m i c').contexts p ≡ ok (some (i, c'))
  pointed-change m none i c c' h = cc
  pointed-change m (some j) i c c' h = elim (Option-cases (get_elem? m.contexts j)) [
    | inl out ↦ cc (sym (ap (valued j) out) ∙ h)
    | inr (d, there) ↦
        let e : valued j (some d) ≡ ok (some (i, c)) = sym (ap (valued j) there) ∙ h in
        let same : j ≡ i = cc e in
        rw same (
          ap (valued i)
            (get_elem?-set_there m.contexts i c' (ap (get_elem? m.contexts) (sym same) ∙ there)))
  ]

  pub found-change :
      (m : FdManager) (fd : ℤ) (os os' : Os) (i : ℕ) (c c' : FdContext)
      → found system m fd os ≡ ok (some (i, c))
      → found system (change m i c') fd os' ≡ ok (some (i, c'))
  found-change m fd os os' i c c' h = elim (look-Looked m fd) [
    | inl (e, bad) ↦ cc (not_found m fd os e bad)
    | inr (p, good) ↦
        found_at (change m i c') fd os' p (look-change m i c' fd ∙ good)
        ∙ pointed-change m p i c c' (sym (found_at m fd os p good) ∙ h)
  ]

  -- For a descriptor with the context of a socket that is not closed, on a system where F_GETFL
  -- behind an F_SETFL that succeeds shows the O_NONBLOCK that was set, whatever its other flags,
  -- and that accepts the flags passed on: fcntl of F_SETFL and then of F_GETFL succeed; the
  -- program sees the O_NONBLOCK that it asked for, the system's flag is that of sys_nonblock, and
  -- of the context only the user's wish has changed.
  pub fcntl_getfl-fcntl_setfl :
      (files : Files Os) (m : FdManager) (fd : ℤ) (arg : ℕ) (os : Os) (i : ℕ) (c : FdContext)
      → ((flags : ℕ) (s : Os)
          → (files.set_flags fd flags s).0 ≡ pos 0
          → has_nonblock (files.get_flags fd (files.set_flags fd flags s).1) ≡ has_nonblock flags)
      → (files.set_flags fd (with_nonblock c.sys_nonblock arg) os).0 ≡ pos 0
      → found system m fd os ≡ ok (some (i, c))
      → is_hooked (some c) ≡ true
      → (m' : FdManager) × (os' : Os) × (flags : ℕ) × (fcntl_setfl system files m fd arg os
          ≡ ok (pos 0, m', os'))
        × (fcntl_getfl system files m' fd os' ≡ ok flags)
        × (has_nonblock flags ≡ has_nonblock arg)
        × (has_nonblock (files.get_flags fd os') ≡ c.sys_nonblock)
        × (found system m' fd os' ≡ ok (some (i, record c { user_nonblock = has_nonblock arg })))
  unfolding fcntl_setfl fcntl_getfl set_flags_on get_flags_on
  fcntl_getfl-fcntl_setfl files m fd arg os i c law accepted h hooked =
      let c' = record c { user_nonblock = has_nonblock arg } in
      let kept = with_nonblock c.sys_nonblock arg in
      let os' = (files.set_flags fd kept os).1 in
      let there = found-change m fd os os' i c c' h in
      (
        change m i c',
        os',
        with_nonblock (has_nonblock arg) (files.get_flags fd os'),
        rw (h, hooked) (ap (λ r. ok (r, change m i c', os')) accepted),
        rw (there, hooked) refl,
        has-with_nonblock (has_nonblock arg) (files.get_flags fd os'),
        law kept os accepted ∙ has-with_nonblock c.sys_nonblock arg,
        there,
      )
