-- ===== src/User/Shell/Typed.antt =====
-- The command `kill` with a number as its argument.
use refix_os.User.Shell.{
  Answers, Effect, cmd_kill, kill_pid, skip_spaces, is_blank, puts, dispatch, try_commands,
  match_word,
}
use refix_os.User.Shell.Words.{atoi-c_string}
use refix_os.User.Ulib.{putu_digits, ulib_putu, ulib_atoi, ulib_strlen, ulib_strncmp}
use refix_os.User.Ulib.Decimal.{atoi-putu}
use refix_os.Common.{
  List, ℕ, ◌≡◌, ◌∷◌, ◌≤◌, codes, some, [], ◌++◌, ◌⊎◌, ◌<◌, false, suc, arith, zero, ◌==◌, refl,
  Bool-cases, ◌∙◌, if◌then◌else◌, ltb, inl, ap, subst, inr, ◌/◌, ◌+◌, ◌%◌,
}

abbrev IsDigit : ℕ → Type 0
IsDigit c = (48 ≤ c) × (c ≤ 57)

abbrev StartsDigit : List ℕ → Type 0
StartsDigit [] = ⊥
StartsDigit (c ∷ s) = IsDigit c

putu_digits-StartsDigit :
    (room v : ℕ) (buf ds : List ℕ)
    → putu_digits room v buf ≡ some ds
    → StartsDigit buf ⊎ (0 < v)
    → StartsDigit ds
unfolding putu_digits
putu_digits-StartsDigit zero v buf ds e h = elim (Bool-cases (ltb 0 v)) [
  | inl p ↦ absurd (ground (arith, e, p))
  | inr p ↦
      let same : buf ≡ ds = ground (arith, e, p) in
      subst StartsDigit same (elim h [ inl d ↦ d | inr q ↦ absurd (ground (arith, p, q)) ])
]
putu_digits-StartsDigit (suc room) v buf ds e h = elim (Bool-cases (ltb 0 v)) [
  | inl p ↦
      let rest : putu_digits room (v / 10) ((48 + v % 10) ∷ buf) ≡ some ds = ground (arith, e, p) in
      putu_digits-StartsDigit room (v / 10) ((48 + v % 10) ∷ buf) ds rest
        (inl (omega arith, omega arith))
  | inr p ↦
      let same : buf ≡ ds = ground (arith, e, p) in
      subst StartsDigit same (elim h [ inl d ↦ d | inr q ↦ absurd (ground (arith, p, q)) ])
]

ulib_putu-StartsDigit : (v : ℕ) (ds : List ℕ) → ulib_putu v ≡ some ds → StartsDigit ds
unfolding ulib_putu
ulib_putu-StartsDigit v ds e = elim (Bool-cases (v == 0)) [
  | inl p ↦
      let same : (48 ∷ []) ≡ ds = ground (arith, e, p) in
      subst StartsDigit same (omega arith, omega arith)
  | inr p ↦
      let digits : putu_digits 11 v [] ≡ some ds = ground (arith, e, p) in
      putu_digits-StartsDigit 11 v [] ds digits (inr (ground (arith, p)))
]

kill_line :
    (a : Answers) (c : ℕ) (s : List ℕ)
    → IsDigit c
    → dispatch a (codes "kill " ++ (c ∷ s)) ≡ kill_pid a (ulib_atoi (c ∷ s))
unfolding dispatch try_commands match_word skip_spaces ulib_strlen ulib_strncmp cmd_kill
kill_line a c s h =
    let b : is_blank c ≡ false = ground (arith, h) in
    let z : (c == 0) ≡ false = ground (arith, h) in rw b (rw z refl)

typed_line :
    (a : Answers) (v : ℕ) (ds g : List ℕ)
    → StartsDigit ds
    → ulib_atoi ds ≡ some v
    → dispatch a (codes "kill " ++ (ds ++ 0 ∷ g)) ≡ kill_pid a (some v)
unfolding ulib_atoi
typed_line a v [] g h e = absurd h
typed_line a v (c ∷ ds) g h e =
    kill_line a c (ds ++ 0 ∷ g) h ∙ ap (kill_pid a) (atoi-c_string 0 (c ∷ ds) g ∙ e)

-- The line `kill` with a number below 2 ^ 31, spelt as ulib_putu prints it, makes the shell call
-- sys_kill with that number, and complain if the result is not 0, whatever lies behind the line in
-- the buffer.
pub kill_typed :
    (a : Answers) (v : ℕ) (g : List ℕ)
    → v < 0x80000000
    → (ds : List ℕ) × (ulib_putu v ≡ some ds)
      × (dispatch a (codes "kill " ++ (ds ++ 0 ∷ g))
          ≡ Effect.kill v ∷ (if a.kill_rc v == 0 then [] else puts (codes "kill: bad pid\n") ∷ []))
kill_typed a v g h =
    let (ds, e, r) = atoi-putu v h in
    (
      ds,
      e,
      typed_line a v ds g (ulib_putu-StartsDigit v ds e) r
          ∙ elim (Bool-cases (a.kill_rc v == 0)) [ inl q ↦ rw q refl | inr q ↦ rw q refl ],
    )
