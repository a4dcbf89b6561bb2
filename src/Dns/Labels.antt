-- ===== src/Dns/Labels.antt =====
-- The request of src/net/dns_message_request.hpp for a host that is a list of labels.
use yass.Common.{
  ℕ, zero, suc, ◌+◌, ◌≤◌, ◌<◌, ◌≡◌, ◌≢◌, refl, ap, ap₂, ◌∙◌, arith, true, false, ◌||◌, List, [],
  ◌∷◌, ◌++◌, ltb, ◌==◌, length, length-append, take, drop, All, take-append_within, take_all,
  drop-append_past, drop_all,
}
use mathlib.Core.List.{append-nil}
use yass.Dns.{
  label_len, c_str, encoded, prepend, encode_labels, last_byte, expected_len, request_header,
  question_tail, built, finish, init,
}

-- 1 to 63 bytes, of which none is a dot or a NUL.
pub record IsLabel (l : List ℕ) : Type 0 where
  pub some_byte : 0 < length l
  pub short : length l ≤ 63
  pub plain : All (λ c. (c ≢ b'.') × (c ≢ 0)) l

abbrev pub dotted : List (List ℕ) → List ℕ
dotted [] = []
dotted (l ∷ ls) = b'.' ∷ (l ++ dotted ls)

-- The host: the labels with a dot between them.
abbrev pub join : List (List ℕ) → List ℕ
join [] = []
join (l ∷ ls) = l ++ dotted ls

-- The labels on the wire, each behind its length.
abbrev pub wire : List (List ℕ) → List ℕ
wire [] = []
wire (l ∷ ls) = length l ∷ (l ++ wire ls)

label_len-append :
    (l : List ℕ) (ls : List (List ℕ))
    → All (λ c. (c ≢ b'.') × (c ≢ 0)) l
    → label_len (l ++ dotted ls) ≡ length l
unfolding label_len
label_len-append [] [] p = refl
label_len-append [] (m ∷ ls) p = refl
label_len-append (c ∷ l) ls p = ground (arith, p.0.0, label_len-append l ls p.1)

drop-label : (l : List ℕ) (ls : List (List ℕ)) → drop (length l + 1) (l ++ dotted ls) ≡ join ls
drop-label l [] = drop_all (length l + 1) (l ++ []) (omega (arith, length-append {0} l []))
drop-label l (m ∷ ls) = drop-append_past (length l + 1) 1 l (b'.' ∷ (m ++ dotted ls)) refl

take-label : (l : List ℕ) (ls : List (List ℕ)) → take (length l) (l ++ dotted ls) ≡ l
take-label l ls =
    take-append_within (length l) l (dotted ls) (omega arith) ∙ take_all (length l) l (omega arith)

encode-step :
    (fuel : ℕ) (c : ℕ) (host : List ℕ) (n : ℕ)
    → label_len (c ∷ host) ≡ n
    → 0 < n
    → n ≤ 63
    → encode_labels (suc fuel) (c ∷ host)
      ≡ prepend (n ∷ take n (c ∷ host)) (encode_labels fuel (drop (n + 1) (c ∷ host)))
unfolding encode_labels
encode-step fuel c host n e p q =
    let long : (ltb 63 n || n == 0) ≡ false = ground arith in rw (e, long)

pub encode_labels-join :
    (fuel : ℕ) (ls : List (List ℕ))
    → All IsLabel ls
    → length ls < fuel
    → encode_labels fuel (join ls) ≡ encoded (wire ls)
encode_labels-join zero ls p h = absurd (omega arith)
encode_labels-join (suc fuel) [] p h = unfold encode_labels in refl
encode_labels-join (suc fuel) ([] ∷ ls) p h = absurd (omega (arith, p.0.some_byte))
encode_labels-join (suc fuel) ((c ∷ l) ∷ ls) p h =
    encode-step fuel c (l ++ dotted ls) (length (c ∷ l)) (label_len-append (c ∷ l) ls p.0.plain)
      p.0.some_byte p.0.short
    ∙ ap₂ (λ a b. prepend (length (c ∷ l) ∷ a) (encode_labels fuel b)) (take-label (c ∷ l) ls)
        (drop-label (c ∷ l) ls)
    ∙ ap (prepend (length (c ∷ l) ∷ (c ∷ l))) (encode_labels-join fuel ls p.1 (omega arith))

c_str-plain :
    (l more : List ℕ)
    → All (λ c. (c ≢ b'.') × (c ≢ 0)) l
    → c_str more ≡ more
    → c_str (l ++ more) ≡ l ++ more
unfolding c_str
c_str-plain [] more p e = e
c_str-plain (c ∷ l) more p e = ground (arith, p.0.1, c_str-plain l more p.1 e)

c_str-dotted : (ls : List (List ℕ)) → All IsLabel ls → c_str (dotted ls) ≡ dotted ls
unfolding c_str
c_str-dotted [] p = refl
c_str-dotted (l ∷ ls) p =
    ap (λ x. b'.' ∷ x) (c_str-plain l (dotted ls) p.0.plain (c_str-dotted ls p.1))

c_str-join : (ls : List (List ℕ)) → All IsLabel ls → c_str (join ls) ≡ join ls
c_str-join [] p = unfold c_str in refl
c_str-join (l ∷ ls) p = c_str-plain l (dotted ls) p.0.plain (c_str-dotted ls p.1)

labels-le : (ls : List (List ℕ)) → All IsLabel ls → length ls ≤ length (dotted ls)
labels-le [] p = omega arith
labels-le (l ∷ ls) p = omega (arith, length-append {0} l (dotted ls), labels-le ls p.1)

labels_le-join : (ls : List (List ℕ)) → All IsLabel ls → length ls < suc (length (join ls))
labels_le-join [] p = omega arith
labels_le-join (l ∷ ls) p =
    omega (arith, p.0.some_byte, length-append {0} l (dotted ls), labels-le ls p.1)

-- The call of the loop in `init`, for a host of labels.
pub encode_join :
    (ls : List (List ℕ))
    → All IsLabel ls
    → encode_labels (suc (length (join ls))) (c_str (join ls)) ≡ encoded (wire ls)
encode_join ls p =
    ap (encode_labels (suc (length (join ls)))) (c_str-join ls p)
    ∙ encode_labels-join (suc (length (join ls))) ls p (labels_le-join ls p)

last-plain :
    (l : List ℕ) → 0 < length l → All (λ c. (c ≢ b'.') × (c ≢ 0)) l → (last_byte l == b'.') ≡ false
last-plain [] h p = absurd (omega arith)
last-plain (c ∷ []) h p = ground (arith, p.0.0)
last-plain (c ∷ d ∷ l) h p = last-plain (d ∷ l) (omega arith) p.1

last-append : (xs : List ℕ) (y : ℕ) (ys : List ℕ) → last_byte (xs ++ (y ∷ ys)) ≡ last_byte (y ∷ ys)
last-append [] y ys = refl
last-append (x ∷ []) y ys = refl
last-append (x ∷ z ∷ xs) y ys = last-append (z ∷ xs) y ys

last-dot : (l : List ℕ) → 0 < length l → last_byte (b'.' ∷ l) ≡ last_byte l
last-dot [] h = absurd (omega arith)
last-dot (x ∷ l) h = refl

last-join :
    (l : List ℕ) (ls : List (List ℕ))
    → All IsLabel (l ∷ ls)
    → (last_byte (l ++ dotted ls) == b'.') ≡ false
last-join l [] p =
    ap (λ x. last_byte x == b'.') (append-nil l) ∙ last-plain l p.0.some_byte p.0.plain
last-join l (m ∷ ls) p =
    ap (λ n. n == b'.')
      (last-append l b'.' (m ++ dotted ls)
        ∙ last-dot (m ++ dotted ls)
            (omega (arith, p.1.0.some_byte, length-append {0} m (dotted ls))))
    ∙ last-join m ls p.1

length-wire : (ls : List (List ℕ)) → length (wire ls) ≡ length (dotted ls)
length-wire [] = refl
length-wire (l ∷ ls) =
    omega (arith, length-append {0} l (wire ls), length-append {0} l (dotted ls), length-wire ls)

finish-encoded :
    (host : List ℕ) (dnstype : ℕ) (labels : List ℕ)
    → 12 + length (labels ++ question_tail dnstype) ≡ expected_len host
    → finish host dnstype (encoded labels)
      ≡ built (request_header ++ (labels ++ question_tail dnstype))
unfolding finish
finish-encoded host dnstype labels e =
    let same : (12 + length (labels ++ question_tail dnstype) == expected_len host) ≡ true =
      ground arith in
    rw same

init-fits :
    (c : ℕ) (host : List ℕ) (dnstype : ℕ)
    → expected_len (c ∷ host) ≤ 272
    → init (c ∷ host) dnstype
      ≡ finish (c ∷ host) dnstype (encode_labels (suc (length (c ∷ host))) (c_str (c ∷ host)))
unfolding init
init-fits c host dnstype h =
    let fits : ltb (256 + 16) (expected_len (c ∷ host)) ≡ false = ground arith in rw fits

-- `init` on a host of one or more labels of 1 to 63 bytes, none a dot or a NUL, and of at most 254
-- bytes with the dots between them: it succeeds, the length that it checks is the one it announced,
-- and the message is the header, each label behind its length, the root, the type and the class.
pub init-join :
    (ls : List (List ℕ)) (dnstype : ℕ)
    → All IsLabel ls
    → 0 < length ls
    → length (join ls) ≤ 254
    → init (join ls) dnstype ≡ built (request_header ++ (wire ls ++ question_tail dnstype))
init-join [] dnstype p h s = absurd (omega arith)
init-join ([] ∷ ls) dnstype p h s = absurd (omega (arith, p.0.some_byte))
init-join ((c ∷ l) ∷ ls) dnstype p h s =
    let host = join ((c ∷ l) ∷ ls) in
    let plain_end : expected_len host ≡ 18 + length host =
      rw (last-join (c ∷ l) ls p) (omega arith) in
    init-fits c (l ++ dotted ls) dnstype (omega (arith, plain_end))
    ∙ ap (λ x. finish host dnstype (encode_labels (suc (length host)) x))
        (c_str-join ((c ∷ l) ∷ ls) p)
    ∙ ap (finish host dnstype) (
        encode_labels-join (suc (length host)) ((c ∷ l) ∷ ls) p
          (omega (arith, length-append {0} l (dotted ls), labels-le ls p.1)))
    ∙ finish-encoded host dnstype (wire ((c ∷ l) ∷ ls)) (
        omega (
          arith,
          plain_end,
          length-append {0} (wire ((c ∷ l) ∷ ls)) (question_tail dnstype),
          length-wire ((c ∷ l) ∷ ls),
          length-append {0} l (dotted ls),
        ))
