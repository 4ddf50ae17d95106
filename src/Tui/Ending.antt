-- ===== src/Tui/Ending.antt =====
-- When the client's loop ends.
use daemon_choir.Base.{
  some, map, ℕ, zero, suc, ◌+◌, ◌≡◌, refl, ◌∙◌, false, Bool-cases, inl, inr, ◌⊎◌, String, List, [],
  ◌∷◌, ◌++◌, All, str_eq, arith, length, length-append,
}
use daemon_choir.Float.{F64}
use daemon_choir.Tui.{
  Line, typed, Peer, Client, Notice, Flow, goes_on, exits, read_line, say, run_command, run_loop,
  view_config, trigger_reload, trigger_shutdown,
}

-- a line that neither opens the dashboard, nor asks to confirm a wipe, nor ends the loop
pub record IsPlain (line : String) : Type 0 where
  pub not1 : str_eq line "1" ≡ false
  pub not4 : str_eq line "4" ≡ false
  pub not5 : str_eq line "5" ≡ false
  pub not6 : str_eq line "6" ≡ false

module _ {F S : Type 0} ⦃f : F64 F⦄ (peer : Peer F S) where
  -- a command that takes no more lines, and of which one thing is said
  abbrev Says : Client F S → Flow F S → Type 0
  Says c o =
      (c' : Client F S) × (o ≡ goes_on c')
      × (c'.lines ≡ c.lines)
      × (length c'.said ≡ length c.said + 1)

  said-one : (c : Client F S) (n : Notice F) → length (c.said ++ (n ∷ [])) ≡ length c.said + 1
  said-one c n = length-append c.said (n ∷ [])

  plain-Says :
      (rounds : ℕ) (line : String) (c : Client F S)
      → IsPlain line
      → Says c (run_command peer rounds line c)
  unfolding run_command view_config trigger_reload
  plain-Says rounds line c p = elim (Bool-cases (str_eq line "2")) [
    | inl e2 ↦ rw (p.not1, e2) (_, refl, refl, said-one c _)
    | inr e2 ↦ elim (Bool-cases (str_eq line "3")) [
      | inl e3 ↦ rw (p.not1, e2, e3) (_, refl, refl, said-one c _)
      | inr e3 ↦ rw (p.not1, e2, e3, p.not4, p.not5, p.not6) (_, refl, refl, said-one c _)
    ]
  ]

  run_loop-next :
      (rounds n : ℕ) (cmd : String) (rest : List Line) (c c' : Client F S)
      → read_line c.lines ≡ some (cmd, rest)
      → run_command peer rounds cmd (record c { lines = rest }) ≡ goes_on c'
      → run_loop peer rounds (suc n) c ≡ run_loop peer rounds n c'
  unfolding run_loop
  run_loop-next rounds n cmd rest c c' r e = rw (r, run_loop) (rw e refl)

  -- At the end of the input, the loop of `main` never ends, whatever the server answers: after any
  -- number of rounds it still goes on, without a request to the server, and has printed
  -- something in each round.
  pub run_loop-never_ends :
      (rounds n : ℕ) (c : Client F S)
      → c.lines ≡ []
      → (c' : Client F S) × (run_loop peer rounds n c ≡ goes_on c')
        × (c'.server ≡ c.server)
        × (length c'.said ≡ length c.said + n)
  unfolding run_loop run_command
  run_loop-never_ends rounds zero c e = (c, refl, refl, omega arith)
  run_loop-never_ends rounds (suc n) c e =
      let c1 : Client F S = say Notice.invalid_selection (record c { lines = [] }) in
      let (c', q, same, count) = run_loop-never_ends rounds n c1 refl in
      (
        c',
        run_loop-next rounds n "" [] c c1 (rw e refl) refl ∙ q,
        same,
        omega (arith, count, said-one c Notice.invalid_selection),
      )

  -- The loop of `main` ends where a `5` or a `6` is typed after lines that are not among `1`, `4`, `5`
  -- and `6`, with as many rounds as there are lines up to it, and leaves the lines behind it.
  pub run_loop-ends :
      (rounds : ℕ) (front : List String) (rest : List Line) (last : String) (c : Client F S)
      → All IsPlain front
      → (last ≡ "5") ⊎ (last ≡ "6")
      → c.lines ≡ map typed front ++ (typed last ∷ rest)
      → (c' : Client F S) × (run_loop peer rounds (suc (length front)) c ≡ exits c')
        × (c'.lines ≡ rest)
        × (length c'.said ≡ length c.said + length front + 1)
  unfolding run_loop run_command trigger_shutdown
  run_loop-ends rounds [] rest last c ok (inl five) e = (
    trigger_shutdown peer (record c { lines = rest }),
    rw (e, five) refl,
    refl,
    omega (arith, said-one c _),
  )
  run_loop-ends rounds [] rest last c ok (inr six) e = (
    say Notice.goodbye (record c { lines = rest }),
    rw (e, six) refl,
    refl,
    omega (arith, said-one c _),
  )
  run_loop-ends rounds (line ∷ front) rest last c (p, ok) ends e =
      let (c1, q1, l1, n1) =
        plain-Says rounds line (record c { lines = map typed front ++ (typed last ∷ rest) }) p in
      let (c', q, l, n) = run_loop-ends rounds front rest last c1 ok ends l1 in
      (
        c',
        run_loop-next rounds (suc (length front)) line (map typed front ++ (typed last ∷ rest)) c c1
              (rw e refl) q1
            ∙ q,
        l,
        omega (arith, n, n1),
      )
