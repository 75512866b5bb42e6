-- ===== src/Kernel/Tty/Runs.antt =====
-- Interrupts and reads of driver/tty.c in any order.
use manux.Common.{
  ltb, lt→ltb, ge→ltb, ++-assoc, ℕ, ◌≤◌, ◌<◌, ◌≡◌, refl, sym, ap, ◌∙◌, true, false, Option, none,
  some, List, [], ◌∷◌, ◌++◌,
}
use manux.Kernel.Tty.{Tty, tty_init, rst_38h, tty_getchar}
use manux.Kernel.Tty.Laws.{
  waiting, IsRing, rst_38h_lem, Taken, empty, oldest, tty_getchar_lem, tty_init_lem,
}

-- A run from tty_init on: the characters that the interrupt has put into the buffer, those that
-- reads have taken, and the terminal behind them. An interrupt on a full buffer loses its
-- character.
pub data Run : (received taken : List ℕ) → Tty → Type 0 where
  begin : (t : Tty) → Run [] [] (tty_init t)
  arrive :
      {received taken : List ℕ} {t : Tty} (c : ℕ)
      → Run received taken t
      → c < 256
      → t.count < 250
      → Run (received ++ (c ∷ [])) taken (rst_38h t c)
  lose :
      {received taken : List ℕ} {t : Tty} (c : ℕ)
      → Run received taken t
      → c < 256
      → 250 ≤ t.count
      → Run received taken (rst_38h t c)
  read :
      {received taken : List ℕ} {t rest : Tty} (c : ℕ)
      → Run received taken t
      → tty_getchar t ≡ some (c, rest)
      → Run received (taken ++ (c ∷ [])) rest

taken_oldest :
    {t rest : Tty} {c : ℕ}
    → IsRing t
    → tty_getchar t ≡ some (c, rest)
    → IsRing rest × (waiting t ≡ c ∷ waiting rest)
taken_oldest {t} {rest} {c} r e = go (tty_getchar t) e (tty_getchar_lem t r)
  where
    go :
        (answer : Option (ℕ × Tty))
        → answer ≡ some (c, rest)
        → Taken t answer
        → IsRing rest × (waiting t ≡ c ∷ waiting rest)
    go none e (empty nothing) = cc
    go (some (d, left)) e (oldest ring order) =
        let same : d ≡ c = cc in
        let stays : left ≡ rest = cc in rw (sym same, sym stays) (ring, order)

-- However interrupts and reads follow one another, the ring is in order, and the characters that
-- entered the buffer are those that were taken, followed by those that wait: none is lost, doubled
-- or out of order.
pub run_lem :
    (received taken : List ℕ) (t : Tty)
    → Run received taken t
    → IsRing t × (received ≡ taken ++ waiting t)
run_lem _ _ _ (begin t) = let (ring, order) = tty_init_lem t in (ring, sym order)
run_lem _ _ _ (arrive {received} {taken} {t} c run h room) =
    let (ring, order) = run_lem received taken t run in
    let (kept, more) = rst_38h_lem t c ring h in
    let free : ltb t.count 250 ≡ true = lt→ltb _ _ room in
    let longer : waiting (rst_38h t c) ≡ waiting t ++ (c ∷ []) = more ∙ (rw free refl) in
    (
      kept,
      ap (λ l. l ++ (c ∷ [])) order
          ∙ ++-assoc taken (waiting t) (c ∷ [])
          ∙ ap (λ l. taken ++ l) (sym longer),
    )
run_lem _ _ _ (lose {received} {taken} {t} c run h full) =
    let (ring, order) = run_lem received taken t run in
    let (kept, more) = rst_38h_lem t c ring h in
    let filled : ltb t.count 250 ≡ false = ge→ltb _ _ full in
    let same : waiting (rst_38h t c) ≡ waiting t = more ∙ (rw filled refl) in
    (kept, order ∙ ap (λ l. taken ++ l) (sym same))
run_lem _ _ _ (read {received} {taken} {t} {rest} c run e) =
    let (ring, order) = run_lem received taken t run in
    let (kept, first) = taken_oldest ring e in
    (kept, order ∙ ap (λ l. taken ++ l) first ∙ sym (++-assoc taken (c ∷ []) (waiting rest)))
