-- ===== src/Dns/Names.antt =====
-- The names of src/net/dns_message_request.hpp as src/net/dns_message_response_parser.hpp reads them.
use yass.Common.{
  ℕ, zero, suc, ◌+◌, ◌-◌, ◌%◌, ◌≤◌, ◌<◌, ◌≡◌, refl, sym, ap, ap₂, ◌∙◌, arith, false, List, [], ◌∷◌,
  ◌++◌, ltb, leb, ◌==◌, Mem, slice, length, length-append, All,
}
use mathlib.Core.Path.{subst}
use mathlib.Core.List.{append_assoc, append-nil}
use yass.Handshake.{View}
use yass.Handshake.Views.{Begins, skip, Begins-first, Begins-skip, Begins-slice}
use yass.Dns.{
  encoded, encode_labels, c_str, skip_labels, skipqname, passed, complete, read_name, join_label,
}
use yass.Dns.Labels.{IsLabel, dotted, join, wire, encode_join}

-- A name on the wire: its labels and the root.
abbrev pub qname : List (List ℕ) → List ℕ
qname [] = 0 ∷ []
qname (l ∷ ls) = length l ∷ (l ++ qname ls)

pub qname-wire : (ls : List (List ℕ)) (more : List ℕ) → wire ls ++ (0 ∷ more) ≡ qname ls ++ more
qname-wire [] more = refl
qname-wire (l ∷ ls) more =
    ap (λ x. length l ∷ x)
      (append_assoc l (wire ls) (0 ∷ more)
        ∙ ap (λ x. l ++ x) (qname-wire ls more)
        ∙ sym (append_assoc l (qname ls) more))

pub length-qname : (ls : List (List ℕ)) → length (qname ls) ≡ length (dotted ls) + 1
length-qname [] = refl
length-qname (l ∷ ls) =
    omega (arith, length-append {0} l (qname ls), length-append {0} l (dotted ls), length-qname ls)

skip-label :
    (fuel : ℕ) (mem : Mem) (dohlen i : ℕ)
    → 0 < mem i
    → mem i ≤ 63
    → 1 + mem i ≤ dohlen
    → skip_labels (suc fuel) mem dohlen i ≡ skip_labels fuel mem dohlen (i + (1 + mem i))
unfolding skip_labels
skip-label fuel mem dohlen i p q h = ground arith

skip-root :
    (fuel : ℕ) (mem : Mem) (dohlen i : ℕ)
    → 1 ≤ dohlen
    → mem i ≡ 0
    → skip_labels (suc fuel) mem dohlen i ≡ passed (i + 1)
unfolding skip_labels
skip-root fuel mem dohlen i h root = ground arith

skip_labels-qname :
    (fuel : ℕ) (ls : List (List ℕ)) (dohlen : ℕ) (b : View)
    → All IsLabel ls
    → length ls < fuel
    → length (qname ls) ≤ dohlen
    → Begins (qname ls) b
    → skip_labels fuel b.mem dohlen b.offset ≡ passed (b.offset + length (qname ls))
skip_labels-qname zero ls dohlen b p h d held = absurd (omega arith)
skip_labels-qname (suc fuel) [] dohlen b p h d held =
    skip-root fuel b.mem dohlen b.offset (omega arith) (Begins-first held)
skip_labels-qname (suc fuel) (l ∷ ls) dohlen b p h d held =
    let len : b.mem b.offset ≡ length l = Begins-first held in
    let there : b.offset + (1 + b.mem b.offset) ≡ b.offset + 1 + length l = omega (arith, len) in
    skip-label fuel b.mem dohlen b.offset (omega (arith, len, p.0.some_byte))
      (omega (arith, len, p.0.short)) (omega (arith, len, d, length-append {0} l (qname ls)))
    ∙ ap (skip_labels fuel b.mem dohlen) there
    ∙ skip_labels-qname fuel ls dohlen (skip (length l) (skip 1 b)) p.1 (omega arith)
        (omega (arith, d, length-append {0} l (qname ls)))
        (Begins-skip l (qname ls) (Begins-skip (length l ∷ []) (l ++ qname ls) held))
    ∙ ap passed (omega (arith, length-append {0} l (qname ls)))

read-label :
    (fuel : ℕ) (mem : Mem) (start end i : ℕ) (name : List ℕ)
    → 0 < mem i
    → mem i ≤ 63
    → i + 1 + mem i ≤ end
    → read_name (suc fuel) mem start end i name
      ≡ read_name fuel mem start end (i + 1 + mem i) (join_label name (slice mem (i + 1) (mem i)))
unfolding read_name
read-label fuel mem start end i name p q h =
    let a : leb 0xc0 (mem i) ≡ false = ground arith in
    let b : leb 0x40 (mem i) ≡ false = ground arith in
    let c : (mem i == 0) ≡ false = ground arith in
    let d : ltb (end - (i + 1)) (mem i) ≡ false = ground arith in rw (a, b, c, d)

read-root :
    (fuel : ℕ) (mem : Mem) (start end i : ℕ) (name : List ℕ)
    → mem i ≡ 0
    → read_name (suc fuel) mem start end i name ≡ complete name
unfolding read_name
read-root fuel mem start end i name root = ground arith

-- The labels joined one by one.
abbrev joined : List ℕ → List (List ℕ) → List ℕ
joined name [] = name
joined name (l ∷ ls) = joined (join_label name l) ls

joined-dotted :
    (c : ℕ) (name : List ℕ) (ls : List (List ℕ)) → joined (c ∷ name) ls ≡ (c ∷ name) ++ dotted ls
joined-dotted c name [] = sym (append-nil (c ∷ name))
joined-dotted c name (l ∷ ls) =
    joined-dotted c (name ++ (b'.' ∷ l)) ls ∙ append_assoc (c ∷ name) (b'.' ∷ l) (dotted ls)

joined-join : (ls : List (List ℕ)) → All IsLabel ls → joined [] ls ≡ join ls
joined-join [] p = refl
joined-join ([] ∷ ls) p = absurd (omega (arith, p.0.some_byte))
joined-join ((c ∷ l) ∷ ls) p = joined-dotted c l ls

reads-labels :
    (fuel : ℕ) (ls : List (List ℕ)) (start end : ℕ) (b : View) (name : List ℕ)
    → All IsLabel ls
    → length ls < fuel
    → b.offset + length (qname ls) ≤ end
    → Begins (qname ls) b
    → read_name fuel b.mem start end b.offset name ≡ complete (joined name ls)
reads-labels zero ls start end b name p h e held = absurd (omega arith)
reads-labels (suc fuel) [] start end b name p h e held =
    read-root fuel b.mem start end b.offset name (Begins-first held)
reads-labels (suc fuel) (l ∷ ls) start end b name p h e held =
    let len : b.mem b.offset ≡ length l = Begins-first held in
    let there : b.offset + 1 + b.mem b.offset ≡ b.offset + 1 + length l = omega (arith, len) in
    read-label fuel b.mem start end b.offset name (omega (arith, len, p.0.some_byte))
      (omega (arith, len, p.0.short)) (omega (arith, len, e, length-append {0} l (qname ls)))
    ∙ ap₂ (λ j x. read_name fuel b.mem start end j (join_label name x)) there
        (Begins-slice (length l ∷ []) l (qname ls) held refl len)
    ∙ reads-labels fuel ls start end (skip (length l) (skip 1 b)) (join_label name l) p.1
        (omega arith) (omega (arith, e, length-append {0} l (qname ls)))
        (Begins-skip l (qname ls) (Begins-skip (length l ∷ []) (l ++ qname ls) held))

-- A name on the wire is passed over, and read back.
pub qname_read :
    (fuel : ℕ) (ls : List (List ℕ)) (start end : ℕ) (b : View)
    → All IsLabel ls
    → length ls < fuel
    → b.offset + length (qname ls) ≤ end
    → end < b.offset + 65536
    → Begins (qname ls) b
    → (skipqname fuel b.mem b.offset end ≡ passed (b.offset + length (qname ls)))
      × (read_name fuel b.mem start end b.offset [] ≡ complete (join ls))
unfolding skipqname
qname_read fuel ls start end b p h room short held = (
  skip_labels-qname fuel ls ((end - b.offset) % 65536) b p h (omega arith) held,
  reads-labels fuel ls start end b [] p h room held ∙ ap complete (joined-join ls p),
)

encoded_injective : {x y : List ℕ} → encoded x ≡ encoded y → x ≡ y
encoded_injective h = cc

-- A host of labels of 1 to 63 bytes, none a dot or a NUL, with a dot between them: what the request's
-- loop makes of it, with the root behind, is passed over by `skipqname` to its last byte, where it is
-- whole and fewer than 65536 bytes are left; and the loop that reads the name of a CNAME gives the host
-- back. The parser's loops have more fuel than there are labels.
pub names_round_trip :
    (fuel : ℕ) (ls : List (List ℕ)) (bytes : List ℕ) (start end : ℕ) (b : View)
    → All IsLabel ls
    → encode_labels (suc (length (join ls))) (c_str (join ls)) ≡ encoded bytes
    → length ls < fuel
    → b.offset + length bytes + 1 ≤ end
    → end < b.offset + 65536
    → Begins (bytes ++ (0 ∷ [])) b
    → (skipqname fuel b.mem b.offset end ≡ passed (b.offset + length bytes + 1))
      × (read_name fuel b.mem start end b.offset [] ≡ complete (join ls))
names_round_trip fuel ls bytes start end b p e h room short held =
    let same : bytes ≡ wire ls = encoded_injective (sym e ∙ encode_join ls p) in
    let name : bytes ++ (0 ∷ []) ≡ qname ls =
      ap (λ l. l ++ (0 ∷ [])) same ∙ qname-wire ls [] ∙ append-nil (qname ls) in
    let size : length bytes + 1 ≡ length (qname ls) =
      omega (arith, ap length name, length-append {0} bytes (0 ∷ [])) in
    let (skipped, read) =
      qname_read fuel ls start end b p h (omega (arith, room, size)) short
        (subst (λ l. Begins l b) name held) in
    (skipped ∙ ap passed (omega (arith, size)), read)
