-- ===== src/Dns/Termination.antt =====
-- Which loops of src/net/dns_message_request.hpp and src/net/dns_message_response_parser.hpp end.
use yass.Common.{
  ℕ, zero, suc, ◌+◌, ◌-◌, ◌*◌, ◌%◌, ◌≤◌, ◌<◌, ◌≡◌, ◌≢◌, refl, ap, ◌∙◌, inl, inr, arith, true, false,
  ◌||◌, List, [], ◌∷◌, ltb, leb, ◌==◌, Mem, length, take, drop, length-drop, Bool-cases,
}
use yass.Dns.{
  label_len, Encoded, out_of_fuel, bad_label, encoded, prepend, encode_labels, Name, read_name,
  skip_labels, skipqname, passed,
}

drop_shrinks : (n : ℕ) (xs : List ℕ) → length (drop (n + 1) xs) ≤ length xs - 1
drop_shrinks n xs = omega (arith, length-drop (n + 1) xs)

-- The loop over the labels ends on every host, whatever bytes it has, within as many rounds as the
-- host has bytes and one more.
pub encode_labels-ends :
    (fuel : ℕ) (host : List ℕ) → length host < fuel → encode_labels fuel host ≢ out_of_fuel
unfolding encode_labels
encode_labels-ends zero host h e = absurd (omega arith)
encode_labels-ends (suc fuel) [] h e = cc
encode_labels-ends (suc fuel) (c ∷ host) h e =
    let n = label_len (c ∷ host) in
    let rest =
      encode_labels-ends fuel (drop (n + 1) (c ∷ host))
        (omega (arith, drop_shrinks n (c ∷ host))) in
    elim (Bool-cases (ltb 63 n || n == 0)) [
      | inl bad ↦ cc (rw bad at e)
      | inr ok ↦
          prepend-ends (n ∷ take n (c ∷ host)) (encode_labels fuel (drop (n + 1) (c ∷ host))) rest
            (rw ok at e)
    ]
  where
    prepend-ends : (l : List ℕ) (x : Encoded) → x ≢ out_of_fuel → prepend l x ≢ out_of_fuel
    prepend-ends l out_of_fuel h e = h refl
    prepend-ends l bad_label h e = cc
    prepend-ends l (encoded m) h e = cc

pointer-step :
    (fuel : ℕ) (mem : Mem) (start end i : ℕ) (name : List ℕ)
    → 0xc0 ≤ mem i
    → i < end
    → read_name (suc fuel) mem start end i name
      ≡ read_name fuel mem start end (start + ((mem i % 64) * 256 + mem (i + 1))) name
unfolding read_name
pointer-step fuel mem start end i name p h =
    let pointer : leb 0xc0 (mem i) ≡ true = ground arith in
    let room : ltb (end - i) 1 ≡ false = ground arith in rw (pointer, room)

-- A name in the data of a CNAME record that is a pointer to its own place keeps the parser in its
-- loop: however many rounds it is given, it does not end.
pub read_name-never_ends :
    (fuel : ℕ) (mem : Mem) (start end i : ℕ) (name : List ℕ)
    → 0xc0 ≤ mem i
    → i < end
    → start + ((mem i % 64) * 256 + mem (i + 1)) ≡ i
    → read_name fuel mem start end i name ≡ Name.unfinished name
read_name-never_ends zero mem start end i name p h self = unfold read_name in refl
read_name-never_ends (suc fuel) mem start end i name p h self =
    pointer-step fuel mem start end i name p h
    ∙ ap (λ j. read_name fuel mem start end j name) self
    ∙ read_name-never_ends fuel mem start end i name p h self

skip-step :
    (fuel : ℕ) (mem : Mem) (dohlen i : ℕ)
    → 2 ≤ dohlen
    → mem i ≡ 1
    → skip_labels (suc fuel) mem dohlen i ≡ skip_labels fuel mem dohlen (i + 2)
unfolding skip_labels
skip-step fuel mem dohlen i h one = ground arith

skip-root :
    (fuel : ℕ) (mem : Mem) (dohlen i : ℕ)
    → 2 ≤ dohlen
    → mem i ≡ 0
    → skip_labels (suc fuel) mem dohlen i ≡ passed (i + 1)
unfolding skip_labels
skip-root fuel mem dohlen i h root = ground arith

-- The check of the length of a name goes by the bytes that were left at its beginning. Over `n` labels
-- of one byte each and the root behind them, the iterator is moved to the end of the name, however far
-- behind the end of the input that lies.
pub skipqname_overruns :
    (fuel : ℕ) (mem : Mem) (i end n : ℕ)
    → i + 2 ≤ end
    → end < i + 65536
    → ((k : ℕ) → k < n → mem (i + 2 * k) ≡ 1)
    → mem (i + 2 * n) ≡ 0
    → n < fuel
    → skipqname fuel mem i end ≡ passed (i + 2 * n + 1)
unfolding skipqname
skipqname_overruns fuel mem i end n room short ones root enough =
    let left : 2 ≤ (end - i) % 65536 = omega arith in
    go fuel ((end - i) % 65536) i n left ones root enough
  where
    go :
        (fuel dohlen i n : ℕ)
        → 2 ≤ dohlen
        → ((k : ℕ) → k < n → mem (i + 2 * k) ≡ 1)
        → mem (i + 2 * n) ≡ 0
        → n < fuel
        → skip_labels fuel mem dohlen i ≡ passed (i + 2 * n + 1)
    go zero dohlen i n h ones root enough = absurd (omega arith)
    go (suc fuel) dohlen i zero h ones root enough =
        skip-root fuel mem dohlen i h (ap mem (let e : i ≡ i + 2 * 0 = omega arith in e) ∙ root)
        ∙ ap passed (let e : i + 1 ≡ i + 2 * 0 + 1 = omega arith in e)
    go (suc fuel) dohlen i (suc n) h ones root enough =
        skip-step fuel mem dohlen i h
          (ap mem (let e : i ≡ i + 2 * 0 = omega arith in e) ∙ ones 0 (omega arith))
        ∙ go fuel dohlen (i + 2) n h
            (λ k hk.
              ap mem (let e : i + 2 + 2 * k ≡ i + 2 * suc k = omega arith in e)
              ∙ ones (suc k) (omega arith))
            (ap mem (let e : i + 2 + 2 * n ≡ i + 2 * suc n = omega arith in e) ∙ root) (omega arith)
        ∙ ap passed (let e : i + 2 + 2 * n + 1 ≡ i + 2 * suc n + 1 = omega arith in e)
