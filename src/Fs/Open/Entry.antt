-- ===== src/Fs/Open/Entry.antt =====
-- The entry that mfs_open writes for a new file.
use manux.Common.{
  ltb, if◌then◌else◌, Bool-cases, ge→ltb, ltb→ge, Bytes, store, word, store_word, ℕ, ◌+◌, ◌-◌, ◌*◌,
  ◌%◌, ◌≤◌, ◌<◌, bit_and, ◌≡◌, sym, ap, ◌∙◌, ◌⊎◌, inl, inr, true, false, arith,
}
use manux.Fs.Layout.{used, flags_of, size_of, block_of, o_creat}
use manux.Fs.Names.{strncpy, has_name}
use manux.Fs.Names.Laws.{IsText, strncpy-get, strncmp_eq-agree, strncmp_eq-differ, strncpy-outside}
use manux.Fs.Open.{new_entry}

module _ (files : Bytes) (i : ℕ) (fname : Bytes) (flags block : ℕ) where
  new_entry-name :
      (j : ℕ)
      → j < 12
      → new_entry files i fname flags block (21 * i + 3 + j)
        ≡ strncpy files (21 * i + 3) fname 11 (21 * i + 3 + j)
  unfolding new_entry store store_word
  new_entry-name j h = ground arith

  new_entry-text :
      (l j : ℕ)
      → IsText fname l
      → j < 12
      → new_entry files i fname flags block (21 * i + 3 + j)
        ≡ (if ltb j 11 then (if ltb j l then fname j else 0) else files (21 * i + 3 + j))
  new_entry-text l j t h =
      new_entry-name j h
      ∙ strncpy-get files (21 * i + 3) fname 11 l (21 * i + 3 + j) t
      ∙ (let e : 21 * i + 3 + j - (21 * i + 3) ≡ j = omega arith in ground (arith, e))

  -- The entry of a new file is found under its name, if the name has at most 11 characters and the
  -- last byte of the slot's name is 0.
  pub has_name-new_entry :
      (l : ℕ)
      → IsText fname l
      → l ≤ 11
      → files (21 * i + 14) ≡ 0
      → has_name (new_entry files i fname flags block) fname i ≡ true
  unfolding has_name
  has_name-new_entry l t h e =
      strncmp_eq-agree 12 fname (new_entry files i fname flags block) 0 (21 * i + 3) l
        (λ k lt.
          ap fname {y = k} (omega arith) ∙ sym (new_entry-text l k t (omega arith) ∙ ground arith))
        (ap fname {y = l} (omega arith) ∙ t.nul)
        (new_entry-text l l t (omega arith) ∙ (elim (Bool-cases (ltb l 11)) [
          | inl short ↦ rw (short, ge→ltb l l (omega arith))
          | inr full ↦ rw full (ap files (omega (arith, ltb→ge _ _ full)) ∙ e)
        ]))

  -- A name of 12 characters or more does not match the entry that was made for it.
  pub has_name-new_entry_long :
      (l : ℕ)
      → IsText fname l
      → 12 ≤ l
      → files (21 * i + 14) ≡ 0
      → has_name (new_entry files i fname flags block) fname i ≡ false
  unfolding has_name
  has_name-new_entry_long l t h e =
      strncmp_eq-differ 12 fname (new_entry files i fname flags block) 0 (21 * i + 3) 11
        (omega arith) (λ k lt z. t.before k (omega arith) (ap fname {y = 0 + k} (omega arith) ∙ z))
        (λ q. t.before 11 (omega arith) (
          ap fname {y = 0 + 11} (omega arith)
          ∙ q
          ∙ new_entry-text l 11 t (omega arith)
          ∙ ap files (omega arith)
          ∙ e))

  pub new_entry-fields :
      block < 65536
      → let made = new_entry files i fname flags block in
        (used made i ≡ 1)
        × (size_of made i ≡ 0)
        × (block_of made i ≡ block)
        × (flags_of made i ≡ bit_and flags (65535 - o_creat) % 256)
  unfolding new_entry store store_word word
  new_entry-fields h = ground arith

  pub new_entry-others :
      (j : ℕ) → j < 21 * i ⊎ 21 * i + 21 ≤ j → new_entry files i fname flags block j ≡ files j
  unfolding new_entry store store_word
  new_entry-others j h = ground (
    arith,
    strncpy-outside files (21 * i + 3) fname 11 j
        (elim h [ inl a ↦ inl (omega arith) | inr b ↦ inr (omega arith) ]),
  )
