-- ===== src/Kernel/Examples.antt =====
-- The theorems on the kernel's terminal, output, input and argument table at concrete values.
use manux.Common.{
  ◌==◌, if◌then◌else◌, IsBytes, text, store, ℕ, zero, suc, ◌+◌, ◌<◌, ◌≡◌, refl, ◌≢◌, some, List, [],
  ◌∷◌, ◌++◌, arith,
}
use manux.Kernel.Tty.{Tty, tty_init, rst_38h, take_char, tty_getchar}
use manux.Kernel.Tty.Laws.{waiting, IsRing}
use manux.Kernel.Tty.Runs.{Run, begin, arrive, read, run_lem}
use manux.Kernel.Kstdio.{Got, kgetslen}
use manux.Kernel.Kstdio.Lines.{Holds, kgetslen_line, kgetslen_overrun}
use manux.Kernel.Exec.{lay_out}
use manux.Kernel.Exec.Laws.{ArgvTable, lay_out_lem}

-- Three characters wait, and the ring has wrapped around.
abbrev wrapped : Tty
wrapped = record {
  buffer = λ i. if i == 249 then 97 else if i == 0 then 98 else if i == 1 then 99 else 0;
  head = 2;
  tail = 249;
  count = 3;
  sent = [];
}

abbrev hello : List ℕ
hello = 72 ∷ 105 ∷ 33 ∷ []

hello-live : (k : ℕ) → k < 3 → text hello (0 + k) ≢ 0
hello-live zero h e = omega arith
hello-live (suc zero) h e = omega arith
hello-live (suc (suc zero)) h e = omega arith
hello-live (suc (suc (suc k))) h e = omega arith

hello-IsBytes : IsBytes (text hello)
hello-IsBytes i = ground arith

kgetslen_line_example :
    (g : Got) × (kgetslen (hello ++ (13 ∷ 65 ∷ [])) (λ _. 7) 128 [] ≡ some g)
    × (g.result ≡ 3)
    × Holds hello (λ _. 7) g.s
    × (g.sent ≡ ([] ++ hello ++ (13 ∷ [])) ++ (10 ∷ 13 ∷ []))
    × (g.rest ≡ 65 ∷ [])
kgetslen_line_example =
    kgetslen_line hello (65 ∷ []) (λ _. 7) 128 [] refl hello-IsBytes (omega arith) (omega arith)

kgetslen_overrun_example :
    (g : Got) × (kgetslen (hello ++ (65 ∷ [])) (λ _. 7) 3 [] ≡ some g)
    × (g.result ≡ 3)
    × Holds hello (λ _. 7) g.s
    × (g.s 3 ≡ 0)
    × (g.rest ≡ 65 ∷ [])
kgetslen_overrun_example =
    kgetslen_overrun hello (65 ∷ []) (λ _. 7) [] refl hello-IsBytes (omega arith)

abbrev two_args : List (List ℕ)
two_args = hello ∷ (97 ∷ []) ∷ []

lay_out_example : ArgvTable two_args (lay_out two_args (λ _. 1))
lay_out_example = lay_out_lem two_args (λ _. 1) (omega arith) (omega arith) (omega arith)

-- Two characters arrive, and one is read.
abbrev two_in : Tty
two_in = rst_38h (rst_38h (tty_init wrapped) 97) 98

abbrev one_out : Tty
one_out = (take_char two_in).1

one_out-Run : Run (97 ∷ 98 ∷ []) (97 ∷ []) one_out
unfolding rst_38h tty_init tty_getchar take_char store
one_out-Run =
    read 97
      (arrive 98 (arrive 97 (begin wrapped) (omega arith) (omega arith)) (omega arith)
        (omega arith))
      refl

run_example : IsRing one_out × ((97 ∷ 98 ∷ []) ≡ (97 ∷ []) ++ waiting one_out)
run_example = run_lem (97 ∷ 98 ∷ []) (97 ∷ []) one_out one_out-Run
