-- ===== src/Kernel/Tty/Laws.antt =====
-- The ring buffer of driver/tty.c is a bounded queue.
use manux.Common.{
  ltb, ◌==◌, if◌then◌else◌, Bool-cases, ltb→lt, ==→eq, ==→ne, add8, sub8, Bytes, store, ℕ, zero,
  suc, ◌+◌, ◌-◌, ◌%◌, ◌≤◌, ◌<◌, ◌≡◌, refl, sym, ap, ◌∙◌, ◌≢◌, inl, inr, true, Option, none, some,
  List, [], ◌∷◌, ◌++◌, arith,
}
use manux.Kernel.Tty.{Tty, buf_size, tty_init, rst_38h, take_char, tty_getchar}

-- The characters that wait, oldest first.
pub waiting_from : ℕ → Bytes → ℕ → List ℕ
waiting_from zero buffer tail = []
waiting_from (suc n) buffer tail = buffer tail ∷ waiting_from n buffer ((tail + 1) % 250)

unfoldable pub waiting : Tty → List ℕ
waiting t = waiting_from t.count t.buffer t.tail

-- The three bytes agree.
pub record IsRing (t : Tty) : Type 0 where
  pub count : t.count ≤ 250
  pub tail : t.tail < 250
  pub head : t.head ≡ (t.tail + t.count) % 250

waiting_from-store :
    (n : ℕ) (buffer : Bytes) (tail h c : ℕ)
    → tail < 250
    → ((k : ℕ) → k < n → (tail + k) % 250 ≢ h)
    → waiting_from n (store buffer h c) tail ≡ waiting_from n buffer tail
unfolding waiting_from store
waiting_from-store zero buffer tail h c lt off = refl
waiting_from-store (suc n) buffer tail h c lt off =
    let here : tail ≢ h = λ e. off 0 (omega arith) (omega arith) in
    let rest =
      waiting_from-store n buffer ((tail + 1) % 250) h c (omega arith)
        (λ k hk e. off (suc k) (omega arith) (omega arith)) in
    ground (arith, here, rest)

waiting_from-snoc :
    (n : ℕ) (buffer : Bytes) (tail : ℕ)
    → tail < 250
    → waiting_from (suc n) buffer tail
      ≡ waiting_from n buffer tail ++ (buffer ((tail + n) % 250) ∷ [])
unfolding waiting_from
waiting_from-snoc zero buffer tail lt = ap (λ k. buffer k ∷ []) (omega arith)
waiting_from-snoc (suc n) buffer tail lt =
    ap (λ l. buffer tail ∷ l)
      (waiting_from-snoc n buffer ((tail + 1) % 250) (omega arith)
        ∙ ap (λ k. waiting_from n buffer ((tail + 1) % 250) ++ (buffer k ∷ [])) (omega arith))

add-IsRing :
    (t : Tty) (c : ℕ)
    → IsRing t
    → t.count < 250
    → c < 256
    → IsRing (rst_38h t c) × (waiting (rst_38h t c) ≡ waiting t ++ (c ∷ []))
unfolding rst_38h waiting
add-IsRing t c r room h =
    let more : add8 t.count 1 ≡ suc t.count = omega arith in
    let free : ltb t.count buf_size ≡ true = ground arith in
    let here : t.head ≡ (t.tail + t.count) % 250 = r.head in
    let put : store t.buffer t.head c ((t.tail + t.count) % 250) ≡ c =
      rw (sym here) (stored t.buffer t.head c h) in
    rw (free, more)
      (
        record { count = omega arith; tail = r.tail; head = omega (arith, r.head) },
        waiting_from-snoc t.count (store t.buffer t.head c) t.tail r.tail ∙ (λ l.
            waiting_from-store t.count t.buffer t.tail t.head c r.tail
              (λ k hk e. absurd (omega (arith, r.head, r.tail))) l
            ++ (put l ∷ [])),
      )
  where
    stored : (m : Bytes) (i v : ℕ) → v < 256 → store m i v i ≡ v
    stored m i v lt = unfold store in ground arith

-- The interrupt keeps the ring in order, and appends the character to those that wait, or drops it
-- when 250 wait.
pub rst_38h_lem :
    (t : Tty) (c : ℕ)
    → IsRing t
    → c < 256
    → IsRing (rst_38h t c)
      × (waiting (rst_38h t c) ≡ (if ltb t.count 250 then waiting t ++ (c ∷ []) else waiting t))
rst_38h_lem t c r h = elim (Bool-cases (ltb t.count 250)) [
  | inl room ↦ rw room (add-IsRing t c r (ltb→lt _ _ room) h)
  | inr full ↦ rw full (unfold rst_38h in rw full (r, refl))
]

-- What a read answers: nothing yet when no character waits, or the oldest, and the others stay.
pub data Taken (t : Tty) : Option (ℕ × Tty) → Type 0 where
  empty : waiting t ≡ [] → Taken t none
  oldest :
      {c : ℕ} {rest : Tty} → IsRing rest → waiting t ≡ c ∷ waiting rest → Taken t (some (c, rest))

take_char-waiting :
    (t : Tty) (n : ℕ)
    → t.count ≡ suc n
    → IsRing t
    → IsRing (take_char t).1 × (waiting t ≡ (take_char t).0 ∷ waiting (take_char t).1)
unfolding take_char waiting waiting_from
take_char-waiting t n e r =
    let fewer : sub8 t.count 1 ≡ n = omega (arith, r.count) in
    rw fewer (
      record {
        count = omega (arith, r.count);
        tail = omega arith;
        head = omega (arith, r.head, r.tail);
      },
      rw e refl,
    )

-- A read waits exactly when no character does; otherwise it answers the oldest and leaves the
-- others in order, with the ring in order.
pub tty_getchar_lem : (t : Tty) → IsRing t → Taken t (tty_getchar t)
unfolding tty_getchar
tty_getchar_lem t r = elim (Bool-cases (t.count == 0)) [
  | inl none_left ↦ rw none_left (empty (nothing (==→eq _ _ none_left)))
  | inr some_left ↦
      let (ring, order) =
        take_char-waiting t (t.count - 1) (omega (arith, ==→ne _ _ some_left)) r in
      rw some_left (oldest ring order)
]
  where
    nothing : t.count ≡ 0 → waiting t ≡ []
    nothing e = unfold waiting waiting_from in rw e refl

-- tty_init leaves an empty ring in order.
pub tty_init_lem : (t : Tty) → IsRing (tty_init t) × (waiting (tty_init t) ≡ [])
unfolding tty_init waiting waiting_from
tty_init_lem t = (record { count = omega arith; tail = omega arith; head = refl }, refl)
