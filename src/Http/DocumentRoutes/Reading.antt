-- ===== src/Http/DocumentRoutes/Reading.antt =====
-- What a client makes of an IngestResult object.
use leta.Prelude.{
  ℕ, ◌≡◌, refl, ap, ◌∙◌, false, ◌&&◌, leb, Option, none, some, [], ◌∷◌, ◌++◌, append_assoc,
  if◌then◌else◌, Bytes, codes, equal,
}
use leta.Prelude.Decimal.{to_string, read_digits-to_string, read_number, read_number-digits}
use leta.Application.IngestService.{AddDocumentsOutcome}
use leta.Http.JsonString.Reading.{quoted, append_json_string-quoted}
use leta.Http.JsonObject.{skip, member, member_lem, read_member, read_member-quoted}
use leta.Http.DocumentRoutes.Batch.{ingest_result_json}

unfoldable pub read_decimal : Bytes → Option (ℕ × Bytes)
read_decimal input = some (read_number 0 input)

read_decimal-to_string :
    (n c : ℕ) (rest : Bytes)
    → (leb b'0' c && leb c b'9') ≡ false
    → read_decimal (to_string n ++ (c ∷ rest)) ≡ some (n, c ∷ rest)
unfolding read_decimal
read_decimal-to_string n c rest other =
    ap some (read_number-digits (to_string n) 0 n c rest (read_digits-to_string n) other)

-- What a client reads in the body of an accepted batch.
pub record ReadResult : Type 0 where
  pub received : ℕ
  pub outcome : AddDocumentsOutcome
  pub processing_time : ℕ

-- The last member and the end of the object.
unfoldable pub read_time : ℕ → ℕ → Option Bytes → Bytes → Option ReadResult
read_time received indexed key input =
    elim (member read_decimal (codes ",\"processingTimeMs\":") input) [
      | none ↦ none
      | some (time, end) ↦
          if equal end (codes "}")
          then some (record {
            received = received;
            outcome = record { indexed = indexed; primary_key = key };
            processing_time = time;
          })
          else none
    ]

-- The primary key where there is one, and the time.
unfoldable pub read_key_and_time : ℕ → ℕ → Bytes → Option ReadResult
read_key_and_time received indexed input = elim (read_member (codes ",\"primaryKey\":") input) [
  | none ↦ read_time received indexed none input
  | some (key, after_key) ↦ read_time received indexed (some key) after_key
]

-- The two counts, and the rest of the object.
unfoldable pub read_ingest_result : Bytes → Option ReadResult
read_ingest_result input = elim (member read_decimal (codes "{\"received\":") input) [
  | none ↦ none
  | some (received, after_received) ↦
      elim (member read_decimal (codes ",\"indexed\":") after_received) [
        | none ↦ none
        | some (indexed, after_indexed) ↦ read_key_and_time received indexed after_indexed
      ]
]

abbrev after_key : ℕ → Bytes
after_key time = codes ",\"processingTimeMs\":" ++ (to_string time ++ codes "}")

abbrev after_indexed : Option Bytes → ℕ → Bytes
after_indexed none time = after_key time
after_indexed (some key) time = codes ",\"primaryKey\":" ++ (quoted key ++ after_key time)

abbrev after_received : AddDocumentsOutcome → ℕ → Bytes
after_received outcome time =
    codes ",\"indexed\":" ++ (to_string outcome.indexed ++ after_indexed outcome.primary_key time)

module _ (received indexed time : ℕ) where
  abbrev result : Option Bytes → ReadResult
  result key = record {
    received = received;
    outcome = record { indexed = indexed; primary_key = key };
    processing_time = time;
  }

  abbrev counts : Bytes
  counts =
      codes "{\"received\":" ++ (to_string received ++ (codes ",\"indexed\":" ++ to_string indexed))

  abbrev laid_out : Option Bytes → Bytes
  laid_out key =
      codes "{\"received\":"
      ++ (to_string received
          ++ (codes ",\"indexed\":" ++ (to_string indexed ++ after_indexed key time)))

  counts-append :
      (rest : Bytes)
      → counts ++ rest
        ≡ codes "{\"received\":"
          ++ (to_string received ++ (codes ",\"indexed\":" ++ (to_string indexed ++ rest)))
  counts-append rest =
      nested (codes "{\"received\":") (to_string received) (codes ",\"indexed\":")
        (to_string indexed) rest
    where
      nested : (a b c d e : Bytes) → (a ++ (b ++ (c ++ d))) ++ e ≡ a ++ (b ++ (c ++ (d ++ e)))
      nested a b c d e = simp append_assoc

  ingest_result_json-laid_out :
      (key : Option Bytes)
      → ingest_result_json received (record { indexed = indexed; primary_key = key }) time
        ≡ laid_out key
  unfolding ingest_result_json
  ingest_result_json-laid_out none = counts-append (after_key time)
  ingest_result_json-laid_out (some key) =
      ap (λ o. o ++ after_key time)
        (append_json_string-quoted (counts ++ codes ",\"primaryKey\":") key)
      ∙ nested counts (codes ",\"primaryKey\":") (quoted key) (after_key time)
      ∙ counts-append (after_indexed (some key) time)
    where
      nested : (a b c d : Bytes) → ((a ++ b) ++ c) ++ d ≡ a ++ (b ++ (c ++ d))
      nested a b c d = simp append_assoc

  read_time-after_key :
      (key : Option Bytes) → read_time received indexed key (after_key time) ≡ some (result key)
  unfolding read_time
  read_time-after_key key =
      rw
        (
          member_lem read_decimal (codes ",\"processingTimeMs\":") (to_string time) (codes "}") _
              (read_decimal-to_string time b'}' [] refl),
          read_time,
        )
        refl

  no_key : read_member (codes ",\"primaryKey\":") (after_key time) ≡ none
  unfolding member skip
  no_key = refl

  read_key_and_time-after_indexed :
      (key : Option Bytes)
      → read_key_and_time received indexed (after_indexed key time) ≡ some (result key)
  unfolding read_key_and_time
  read_key_and_time-after_indexed none = rw (no_key, read_key_and_time) (read_time-after_key none)
  read_key_and_time-after_indexed (some key) =
      rw (read_member-quoted (codes ",\"primaryKey\":") key (after_key time), read_key_and_time)
        (read_time-after_key (some key))

  number_before :
      (n : ℕ) (key : Option Bytes)
      → read_decimal (to_string n ++ after_indexed key time) ≡ some (n, after_indexed key time)
  number_before n none = read_decimal-to_string n b',' _ refl
  number_before n (some key) = read_decimal-to_string n b',' _ refl

  read_ingest_result-laid_out :
      (key : Option Bytes) → read_ingest_result (laid_out key) ≡ some (result key)
  unfolding read_ingest_result
  read_ingest_result-laid_out key =
      rw
        (
          member_lem read_decimal (codes "{\"received\":") (to_string received)
              (after_received (record { indexed = indexed; primary_key = key }) time) _
              (read_decimal-to_string received b',' _ refl),
          read_ingest_result,
        )
        (rw
          (member_lem read_decimal (codes ",\"indexed\":") (to_string indexed)
            (after_indexed key time) _ (number_before indexed key))
          (read_key_and_time-after_indexed key))

-- Every IngestResult object reads back to the two counts, the primary key or its absence, and the
-- time.
pub read_ingest_result-ingest_result_json :
    (received time : ℕ) (outcome : AddDocumentsOutcome)
    → read_ingest_result (ingest_result_json received outcome time)
      ≡ some (record { received = received; outcome = outcome; processing_time = time })
read_ingest_result-ingest_result_json received time outcome =
    ap read_ingest_result
      (ingest_result_json-laid_out received outcome.indexed time outcome.primary_key)
    ∙ read_ingest_result-laid_out received outcome.indexed time outcome.primary_key
