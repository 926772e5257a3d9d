-- ===== src/Store/Wal/Torn.antt =====
-- A log that a crash has cut anywhere: the frames that are whole, and a piece of the next.
use mathlib.Core.List.{append_assoc}
use canal.Prelude.{ℕ, ◌≡◌, refl, sym, ap, ◌∙◌, List, [], ◌∷◌, ◌++◌, ◌⊎◌, inl, inr}
use canal.Store.Wal.Format.{KeyedEntry}
use canal.Store.Wal.Bytes.{encode}

-- The frames of entries, one behind the other.
abbrev pub log_of : (List ℕ → ℕ) → List KeyedEntry → List ℕ
log_of checksum [] = []
log_of checksum (e ∷ es) = encode checksum e ++ log_of checksum es

-- A log that was cut: the entries whose frames are whole, and what is left of the next one.
pub record Cut (checksum : List ℕ → ℕ) (es : List KeyedEntry) (front : List ℕ) : Type 0 where
  pub kept : List KeyedEntry
  pub next : KeyedEntry
  pub later : List KeyedEntry
  pub piece : List ℕ
  pub missing : ℕ
  pub more : List ℕ
  pub entries : es ≡ kept ++ next ∷ later
  pub bytes : front ≡ log_of checksum kept ++ piece
  pub partial : encode checksum next ≡ piece ++ missing ∷ more

-- Either the front is a part of the first list and not all of it, or it goes beyond.
front_cases :
    (front : List ℕ) (x : ℕ) (back a b : List ℕ)
    → front ++ x ∷ back ≡ a ++ b
    → ((y : ℕ) × (more : List ℕ) × (a ≡ front ++ y ∷ more))
      ⊎ ((beyond : List ℕ) × (front ≡ a ++ beyond) × (beyond ++ x ∷ back ≡ b))
front_cases front x back [] b h = inr (front, refl, h)
front_cases [] x back (c ∷ a) b h = inl (c, a, refl)
front_cases (d ∷ front) x back (c ∷ a) b h = elim (front_cases front x back a b (cc h)) [
  | inl (y, more, e) ↦ inl (y, more, cc (h, e))
  | inr (beyond, e, f) ↦ inr (beyond, cc (h, e), f)
]

pub log-Cut :
    (checksum : List ℕ → ℕ) (es : List KeyedEntry) (front : List ℕ) (x : ℕ) (back : List ℕ)
    → front ++ x ∷ back ≡ log_of checksum es
    → Cut checksum es front
log-Cut checksum [] [] x back h = absurd (cc h)
log-Cut checksum [] (d ∷ front) x back h = absurd (cc h)
log-Cut checksum (e ∷ es) front x back h =
    elim (front_cases front x back (encode checksum e) (log_of checksum es) h) [
      | inl (y, more, part) ↦ record {
        kept = [];
        next = e;
        later = es;
        piece = front;
        missing = y;
        more = more;
        entries = refl;
        bytes = refl;
        partial = part;
      }
      | inr (beyond, all, rest) ↦
          let c = log-Cut checksum es beyond x back rest in
          record {
            kept = e ∷ c.kept;
            next = c.next;
            later = c.later;
            piece = c.piece;
            missing = c.missing;
            more = c.more;
            entries = ap (λ l. e ∷ l) c.entries;
            bytes =
                all
                ∙ ap (λ l. encode checksum e ++ l) c.bytes
                ∙ sym (append_assoc (encode checksum e) (log_of checksum c.kept) c.piece);
            partial = c.partial;
          }
    ]
