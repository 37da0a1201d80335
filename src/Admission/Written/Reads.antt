-- ===== src/Admission/Written/Reads.antt =====
-- What a reader finds in the file of deltas of hydralisk/admission/deepseek_v4_fable.py.
use hydralisk.Prelude.{
  ℕ, ◌+◌, ◌-◌, ◌≡◌, ◌∙◌, sym, ap, refl, subst, arith, String, Bool, true, false, ◌&&◌, Option, none,
  some, List, [], ◌∷◌, ◌++◌, length, length-append, append_assoc, str_eq, eq_iff, if◌then◌else◌,
  All, take, drop, Holds, Holds-bind, Holds_some, some_path,
}
use hydralisk.Prelude.Int.{ℤ, pos, ◌+ℤ◌, +ℤ_pos, same_int, same_int_lem}
use hydralisk.Admission.Delta.{DeltaSpec}
use hydralisk.Admission.Written.{
  HeaderEntry, put_entry, entry_at, header_from, same_ints, Delta, is_expected, data_of, DeltaFile,
  write_packed_delta_safetensors,
}

-- A reader: the entry of a name, and the part of the data that it says.
unfoldable pub find_entry : String → List HeaderEntry → Option HeaderEntry
find_entry key [] = none
find_entry key (e ∷ header) = if str_eq e.key key then some e else find_entry key header

abbrev part : ℤ → ℤ → List ℕ → Option (List ℕ)
part (pos a) (pos b) xs = some (take (b - a) (drop a xs))
part _ _ xs = none

abbrev part_at : Option HeaderEntry → List ℕ → Option (List ℕ)
part_at none payload = none
part_at (some e) payload = part e.first e.last payload

unfoldable pub read_tensor : String → DeltaFile → Option (List ℕ)
read_tensor key f = part_at (find_entry key f.header) f.payload

-- No two specs write one name.
abbrev pub IsUnique : List DeltaSpec → Type 0
IsUnique [] = Unit
IsUnique (s ∷ specs) = All (λ t. str_eq t.output_key s.output_key ≡ false) specs × IsUnique specs

-- A spec's delta is what its name reads.
abbrev pub IsStored : Delta → DeltaFile → DeltaSpec → Type 0
IsStored delta f s =
    (content : List ℕ) × (delta s.lora_a_key s.lora_b_key ≡ some (s.shape, content))
    × (read_tensor s.output_key f ≡ some content)

both_true : (a b : Bool) → a && b ≡ true → (a ≡ true) × (b ≡ true)
both_true true b e = (refl, e)
both_true false b e = absurd (cc)

same_ints_lem : (xs ys : List ℤ) → same_ints xs ys ≡ true → xs ≡ ys
same_ints_lem [] [] e = refl
same_ints_lem (x ∷ xs) (y ∷ ys) e =
    let p = both_true (same_int x y) (same_ints xs ys) e in
    ap (λ z. z ∷ xs) (same_int_lem x y p.0) ∙ ap (λ zs. y ∷ zs) (same_ints_lem xs ys p.1)
same_ints_lem [] (y ∷ ys) e = absurd (cc)
same_ints_lem (x ∷ xs) [] e = absurd (cc)

find-put :
    (key : String) (e : HeaderEntry) (header : List HeaderEntry)
    → find_entry key (put_entry e header)
      ≡ (if str_eq e.key key then some e else find_entry key header)
unfolding find_entry put_entry
find-put key e [] = refl
find-put key e (f ∷ header) =
    ground (arith, eq_iff f.key e.key, eq_iff f.key key, eq_iff e.key key, find-put key e header)

find-header_from :
    (key : String) (offset : ℤ) (specs : List DeltaSpec) (header : List HeaderEntry)
    → All (λ t. str_eq t.output_key key ≡ false) specs
    → find_entry key (header_from offset specs header) ≡ find_entry key header
unfolding header_from
find-header_from key offset [] header h = refl
find-header_from key offset (s ∷ specs) header h =
    find-header_from key (offset +ℤ s.bytes) specs (put_entry (entry_at offset s) header) h.1
    ∙ find-put key (entry_at offset s) header
    ∙ rw (h.0) refl

take-length : (xs ys : List ℕ) → take (length xs) (xs ++ ys) ≡ xs
take-length [] [] = refl
take-length [] (y ∷ ys) = refl
take-length (x ∷ xs) ys = ap (λ t. x ∷ t) (take-length xs ys)

drop-length : (xs ys : List ℕ) → drop (length xs) (xs ++ ys) ≡ ys
drop-length [] [] = refl
drop-length [] (y ∷ ys) = refl
drop-length (x ∷ xs) ys = drop-length xs ys

part_between :
    (front content rest : List ℕ)
    → part (pos (length front)) (pos (length front + length content)) (front ++ (content ++ rest))
      ≡ some content
part_between front content rest = ap some (
    ap (λ n. take n (drop (length front) (front ++ (content ++ rest)))) (omega arith)
    ∙ ap (take (length content)) (drop-length front (content ++ rest))
    ∙ take-length content rest)

given_by :
    (b : Bool) (content result : List ℕ)
    → (if b then some content else none) ≡ some result
    → (b ≡ true) × (content ≡ result)
given_by true content result e = (refl, some_path e)
given_by false content result e = absurd (cc)

module _ (delta : Delta) where
  abbrev Stores : List DeltaSpec → List ℕ → Type 0
  Stores specs content =
      (front : List ℕ) (header : List HeaderEntry)
      → IsUnique specs
      → All
          (IsStored delta (record {
            header = header_from (pos (length front)) specs header;
            payload = front ++ content;
          }))
          specs

  find_first :
      (s : DeltaSpec) (specs : List DeltaSpec) (offset : ℤ) (header : List HeaderEntry)
      → All (λ t. str_eq t.output_key s.output_key ≡ false) specs
      → find_entry s.output_key (header_from offset (s ∷ specs) header) ≡ some (entry_at offset s)
  unfolding header_from
  find_first s specs offset header h =
      find-header_from s.output_key (offset +ℤ s.bytes) specs (put_entry (entry_at offset s) header)
        h
      ∙ find-put s.output_key (entry_at offset s) header
      ∙ rw ((eq_iff s.output_key s.output_key).1 refl) refl

  first_stored :
      (s : DeltaSpec) (specs : List DeltaSpec) (content rest front : List ℕ)
      (header : List HeaderEntry)
      → pos (length content) ≡ s.bytes
      → All (λ t. str_eq t.output_key s.output_key ≡ false) specs
      → read_tensor s.output_key (record {
        header = header_from (pos (length front)) (s ∷ specs) header;
        payload = front ++ (content ++ rest);
      })
        ≡ some content
  unfolding read_tensor
  first_stored s specs content rest front header size h =
      ap (λ o. part_at o (front ++ (content ++ rest)))
        (find_first s specs (pos (length front)) header h)
      ∙ ap (λ z. part (pos (length front)) z (front ++ (content ++ rest)))
          (ap (λ z. pos (length front) +ℤ z) (sym size) ∙ +ℤ_pos (length front) (length content))
      ∙ part_between front content rest

  abbrev file_with : ℤ → List DeltaSpec → List HeaderEntry → List ℕ → DeltaFile
  file_with offset specs header payload = record {
    header = header_from offset specs header;
    payload = payload;
  }

  same_file :
      (specs : List DeltaSpec) (header : List HeaderEntry) {a b : ℤ} {xs ys : List ℕ}
      → a ≡ b
      → xs ≡ ys
      → file_with a specs header xs ≡ file_with b specs header ys
  same_file specs header p q = cc

  expected_size :
      (s : DeltaSpec) (shape : List ℤ) (content : List ℕ)
      → is_expected s shape content ≡ true
      → (shape ≡ s.shape) × (pos (length content) ≡ s.bytes)
  expected_size s shape content e =
      let p = both_true (same_ints shape s.shape) (same_int (pos (length content)) s.bytes) e in
      (same_ints_lem shape s.shape p.0, same_int_lem (pos (length content)) s.bytes p.1)

  stored_behind :
      (s : DeltaSpec) (specs : List DeltaSpec) (shape : List ℤ) (content rest : List ℕ)
      → delta s.lora_a_key s.lora_b_key ≡ some (shape, content)
      → is_expected s shape content ≡ true
      → Stores specs rest
      → Stores (s ∷ specs) (content ++ rest)
  unfolding header_from
  stored_behind s specs shape content rest e expected stores front header u =
      let p = expected_size s shape content expected in
      (
        (
          content,
          e ∙ ap (λ t. some (t, content)) p.0,
          first_stored s specs content rest front header p.1 u.0,
        ),
        subst (λ f. All (IsStored delta f) specs)
            (same_file specs (put_entry (entry_at (pos (length front)) s) header)
              (ap pos (length-append front content)
                ∙ sym (+ℤ_pos (length front) (length content))
                ∙ ap (λ z. pos (length front) +ℤ z) p.1)
              (append_assoc front content rest))
            (stores (front ++ content) (put_entry (entry_at (pos (length front)) s) header) u.1),
      )

  data_of-Stores : (specs : List DeltaSpec) → Holds (Stores specs) (data_of delta specs)
  unfolding data_of
  data_of-Stores [] = λ front header u. tt
  data_of-Stores (s ∷ specs) =
      Holds-bind (Stores (s ∷ specs)) (delta s.lora_a_key s.lora_b_key) _ λ p e.
        Holds-bind (Stores (s ∷ specs)) (if is_expected s p.0 p.1 then some p.1 else none) _
          λ content given.
            let g = given_by (is_expected s p.0 p.1) p.1 content given in
            Holds-bind (Stores (s ∷ specs)) (data_of delta specs) _ λ rest r.
              subst (λ c. Stores (s ∷ specs) (c ++ rest)) g.1
                (stored_behind s specs p.0 p.1 rest e g.0
                  (Holds_some (Stores specs) (data_of delta specs) rest (data_of-Stores specs) r))

  -- If the file of deltas is written and no two specs write one name, then each spec's product has the
  -- shape that the spec says, and a reader of the file who looks up the spec's name in the header and
  -- takes the part of the data between the offsets there gets the bytes of that product.
  pub write_packed_delta_safetensors-IsStored :
      (specs : List DeltaSpec) (file : DeltaFile)
      → write_packed_delta_safetensors delta specs ≡ some file
      → IsUnique specs
      → All (IsStored delta file) specs
  unfolding write_packed_delta_safetensors
  write_packed_delta_safetensors-IsStored specs file e =
      Holds_some (λ f. IsUnique specs → All (IsStored delta f) specs) _ file
        (Holds-bind (λ f. IsUnique specs → All (IsStored delta f) specs) (data_of delta specs) _
          λ content d.
            Holds_some (Stores specs) (data_of delta specs) content (data_of-Stores specs) d [] [])
        e
