-- ===== src/Store/Wal/Framing.antt =====
-- readFrame of pkg/store/wal/format.go: a frame that encode has written, whole or in part.
use mathlib.Core.List.{append_assoc, append-nil}
use canal.Prelude.{
  ℕ, zero, suc, ◌+◌, ◌*◌, ◌%◌, ◌^◌, ◌≤◌, ◌<◌, ◌≡◌, refl, sym, ap, ◌∙◌, true, false, Option, none,
  some, List, [], ◌∷◌, ◌++◌, ltb, ◌==◌, ◌||◌, ◌⊎◌, inl, inr, Option-cases, length, length-append,
  word32, arith,
}
use canal.Store.Wal.{max_frame}
use canal.Store.Wal.Format.{KeyedEntry, payload, Read, ◌>>=◌, pure, u8, split_at}
use canal.Store.Wal.Bytes.{
  be32, read_be32, header, FrameRead, end_of_file, torn_tail, got, encode, checked, read_frame,
}
use canal.Store.Wal.Reading.{Reads, >>=-Reads, pure-Reads, split_at-Reads}
use canal.Store.Wal.RoundTrip.{FitsEntry}

be32-Reads : (n : ℕ) → n < word32 → Reads read_be32 n (be32 n)
unfolding read_be32 be32 u8
be32-Reads n h rest = ap (λ (m : ℕ). some (m, rest)) (omega arith)

header-Reads :
    (n want : ℕ) → n < word32 → want < word32 → Reads header (n, want) (be32 n ++ be32 want)
header-Reads n want h k =
    >>=-Reads read_be32 _ n (n, want) (be32 n) (be32 want) (be32-Reads n h)
      (pure-Reads (λ w. (n, w)) read_be32 want (be32 want) (be32-Reads want k))

-- Bytes behind what was read stay behind it.
abbrev Extends : {A : Type 0} → Read A → Type 0
Extends {A} r =
    (bs more : List ℕ) (a : A) (rest : List ℕ)
    → r bs ≡ some (a, rest)
    → r (bs ++ more) ≡ some (a, rest ++ more)

u8-Extends : Extends u8
unfolding u8
u8-Extends [] more a rest h = absurd (cc h)
u8-Extends (b ∷ bs) more a rest h = ground (arith, h)

module _ {A B : Type 0} where
  abbrev continued : (A → Read B) → Option (A × List ℕ) → Option (B × List ℕ)
  continued f o = elim o [ none ↦ none | some (c, left) ↦ f c left ]

  >>=-Extends :
      (r : Read A) (f : A → Read B) → Extends r → ((a : A) → Extends (f a)) → Extends (r >>= f)
  >>=-Extends r f h k bs more b rest e = elim (Option-cases (r bs)) [
    | inl n ↦ absurd (cc (ap (continued f) n, e))
    | inr ((a, mid), s) ↦
        ap (continued f) (h bs more a mid s) ∙ k a mid more b rest (sym (ap (continued f) s) ∙ e)
  ]

pure-Extends : {A : Type 0} (a : A) → Extends (pure a)
pure-Extends a bs more b rest h = ground (arith, h)

read_be32-Extends : Extends read_be32
unfolding read_be32
read_be32-Extends = >>=-Extends u8 _ u8-Extends λ a. >>=-Extends u8 _ u8-Extends λ b.
    >>=-Extends u8 _ u8-Extends
      λ c. >>=-Extends u8 _ u8-Extends λ d. pure-Extends (a * 2 ^ 24 + b * 2 ^ 16 + c * 2 ^ 8 + d)

header-Extends : Extends header
header-Extends =
    >>=-Extends read_be32 _ read_be32-Extends
      λ n. >>=-Extends read_be32 _ read_be32-Extends λ want. pure-Extends (n, want)

split_at-short : (n : ℕ) (bs : List ℕ) → length bs < n → split_at n bs ≡ none
unfolding split_at
split_at-short zero bs h = absurd (omega arith)
split_at-short (suc n) [] h = refl
split_at-short (suc n) (b ∷ bs) h = rw (split_at-short n bs (omega arith)) refl

module _ (checksum : List ℕ → ℕ) where
  -- An entry whose frame the log can hold: its payload is not above 64 MiB, and the checksum is a
  -- uint32.
  pub record FitsFrame (e : KeyedEntry) : Type 0 where
    pub entry : FitsEntry e
    pub size : length (payload e) ≤ max_frame
    pub crc : checksum (payload e) < word32

  module _ (e : KeyedEntry) (fit : FitsFrame e) where
    sized : (length (payload e) % word32 ≡ length (payload e)) × (0 < length (payload e))
    unfolding payload
    sized = (omega (arith, fit.size), omega arith)

    frame_header :
        Reads header
          (length (payload e), checksum (payload e))
          (be32 (length (payload e) % word32) ++ be32 (checksum (payload e)))
    frame_header =
        rw (sized.0) (
          header-Reads (length (payload e)) (checksum (payload e)) (omega (arith, fit.size))
            fit.crc)

    checked_whole :
        (rest : List ℕ)
        → checked checksum (length (payload e)) (checksum (payload e)) (payload e ++ rest)
          ≡ got (payload e) rest
    unfolding checked
    checked_whole rest =
        let in_range : (length (payload e) == 0 || ltb max_frame (length (payload e))) ≡ false =
          ground (arith, sized.1, fit.size) in
        let same : (checksum (payload e) == checksum (payload e)) ≡ true = ground arith in
        rw (in_range, split_at-Reads (payload e) rest, same) refl

    checked_short :
        (bs : List ℕ)
        → length bs < length (payload e)
        → checked checksum (length (payload e)) (checksum (payload e)) bs ≡ torn_tail
    unfolding checked
    checked_short bs h =
        let in_range : (length (payload e) == 0 || ltb max_frame (length (payload e))) ≡ false =
          ground (arith, sized.1, fit.size) in
        rw (in_range, split_at-short (length (payload e)) bs h) refl

    -- A read of a header on bytes that are not empty.
    read_frame-header :
        (bs : List ℕ)
        → 0 < length bs
        → read_frame checksum bs ≡ elim (header bs) [
          | none ↦ torn_tail
          | some ((n, want), rest) ↦ checked checksum n want rest
        ]
    unfolding read_frame
    read_frame-header [] h = absurd (omega arith)
    read_frame-header (b ∷ bs) h = refl

    framed :
        (rest : List ℕ)
        → header (encode checksum e ++ rest)
          ≡ some ((length (payload e), checksum (payload e)), payload e ++ rest)
    unfolding encode be32
    framed rest =
        let front : List ℕ = be32 (length (payload e) % word32) ++ be32 (checksum (payload e)) in
        ap header (append_assoc front (payload e) rest) ∙ frame_header (payload e ++ rest)

    pub encode-length : length (encode checksum e) ≡ length (payload e) + 8
    unfolding encode be32
    encode-length = omega arith

    abbrev answered : Option ((ℕ × ℕ) × List ℕ) → FrameRead
    answered o = elim o [ none ↦ torn_tail | some ((n, want), rest) ↦ checked checksum n want rest ]

    pub read_frame-encode :
        (rest : List ℕ) → read_frame checksum (encode checksum e ++ rest) ≡ got (payload e) rest
    read_frame-encode rest =
        read_frame-header (encode checksum e ++ rest)
          (omega (arith, encode-length, length-append (encode checksum e) rest))
        ∙ ap answered (framed rest)
        ∙ checked_whole rest

    cut-torn :
        (found : ℕ × ℕ) (rest : List ℕ) (y : ℕ) (back : List ℕ)
        → ◌≡◌ {A = Option ((ℕ × ℕ) × List ℕ)}
            (some ((length (payload e), checksum (payload e)), payload e ++ []))
            (some (found, rest ++ y ∷ back))
        → answered (some (found, rest)) ≡ torn_tail
    cut-torn found rest y back same =
        let fields : found ≡ (length (payload e), checksum (payload e)) = cc same in
        let all : payload e ++ [] ≡ rest ++ y ∷ back = cc same in
        let short : length rest < length (payload e) =
          omega
            (arith, ap length all, length-append rest (y ∷ back), length-append (payload e) []) in
        ap (λ (p : ℕ × ℕ). checked checksum (p.0) (p.1) rest) fields ∙ checked_short rest short

    -- A part of a frame that is not all of it is not read as a frame.
    pub read_frame-cut :
        (front : List ℕ) (y : ℕ) (back : List ℕ)
        → encode checksum e ≡ front ++ y ∷ back
        → (read_frame checksum front ≡ end_of_file) ⊎ (read_frame checksum front ≡ torn_tail)
    unfolding read_frame
    read_frame-cut [] y back h = inl refl
    read_frame-cut (b ∷ front) y back h = elim (Option-cases (header (b ∷ front))) [
      | inl n ↦ inr (ap answered n)
      | inr ((found, rest), s) ↦
          let wide = header-Extends (b ∷ front) (y ∷ back) found rest s in
          let all : header (encode checksum e ++ []) ≡ some (found, rest ++ y ∷ back) =
            ap header (append-nil (encode checksum e) ∙ h) ∙ wide in
          let same : some ((length (payload e), checksum (payload e)), payload e ++ [])
              ≡ some (found, rest ++ y ∷ back) =
            sym (framed []) ∙ all in
          inr (ap answered s ∙ cut-torn found rest y back same)
    ]
