-- ===== src/Tests/Administration.antt =====
-- Examples for the administration of a cluster and for the chunks that a write hands to other drives
-- (src/KineticAdminCluster.cc, src/KineticClusterStripeOperation.cc).
use kineticio.Prelude.{
  Bool, ltb, ℕ, ◌≡◌, refl, true, false, List, [], ◌∷◌, Option, none, some, length, take, ok, arith,
  replicate, set,
}
use kineticio.Str.{Bytes}
use kineticio.Kinetic.{StatusCode, status_ok}
use kineticio.Operation.{fill_operation, require_same_version}
use kineticio.Get.{fill_read, insert_keys}
use kineticio.Keys.{make_indicator_key}
use kineticio.Handoff.{handoff_name}
use kineticio.Handoff.Numbered.{insert_keys-handoff_name}
use kineticio.Admin.{indicator_keys, init_range_keys, quick_repair}
use kineticio.Admin.Pages.{count}
use kineticio.Admin.Counted.{Counted, Listing, from, count-keys}
use kineticio.Admin.Repaired.{quick_repair_blind}
use kineticio.Range.{str_lt}
use kineticio.Tests.Answers.{numbered, numbered_distinct}
use kineticio.Tests.SumCode.{sum_provider}
use kineticio.Tests.Gets.{ask_drive, no_handoffs}
use kineticio.Tests.Clients.{outside, three_drives, willing}

-- A write handed its chunk 1 to the drive of connection 7.
insert_keys-handoff_name_example :
    insert_keys ask_drive no_handoffs numbered length sum_provider
      (107 ∷ [])
      2
      3
      false
      7
      (handoff_name (107 ∷ []) (118 ∷ []) 1 ∷ [])
      (fill_read 0 (107 ∷ []) ∷ fill_read 1 (107 ∷ []) ∷ [])
    ≡ set
        (fill_read 0 (107 ∷ []) ∷ fill_read 1 (107 ∷ []) ∷ [])
        1
        (fill_read 7 (handoff_name (107 ∷ []) (118 ∷ []) 1))
insert_keys-handoff_name_example =
    insert_keys-handoff_name ask_drive no_handoffs numbered length sum_provider (107 ∷ []) 2 3 false
      7 1 (118 ∷ []) (fill_read 0 (107 ∷ []) ∷ fill_read 1 (107 ∷ []) ∷ []) (omega arith)

-- Of three drives one has the version, and two are unreachable.
quick_repair_blind_example :
    quick_repair willing numbered
      (118 ∷ [])
      (replicate 3 (fill_operation (118 ∷ []) require_same_version))
      (none ∷ some (118 ∷ []) ∷ none ∷ [])
      0
    ≡ (true, 0)
quick_repair_blind_example =
    quick_repair_blind willing numbered numbered_distinct (118 ∷ []) (118 ∷ []) require_same_version
      (none ∷ some (118 ∷ []) ∷ none ∷ []) 0 (refl, tt)

-- Three indicators of the cluster "c", which a range gives two at a time.
abbrev indicators : List Bytes
indicators =
    make_indicator_key (99 ∷ 49 ∷ [])
    ∷ make_indicator_key (99 ∷ 50 ∷ [])
    ∷ make_indicator_key (99 ∷ 51 ∷ [])
    ∷ []

abbrev range_pages : Bytes → Bytes → ℕ → (StatusCode × Option (List Bytes)) × ℕ
range_pages s end w = ((status_ok, some (take 2 (from s indicators))), w)

two_a_page : Listing range_pages (make_indicator_key (99 ∷ 126 ∷ []))
unfolding str_lt make_indicator_key
two_a_page = record {
  keys = indicators;
  limit = 1;
  rising = ((refl, (refl, tt)), ((refl, tt), (tt, tt)));
  answered = λ s w. (refl, refl);
}

-- Whoever asks stops it after more than ten keys, which there are not.
abbrev up_to_ten : ℕ → Bool
up_to_ten total = ltb total 11

count-keys_example :
    (t : ℕ) × (w' : ℕ) × (count outside three_drives 40
        (λ n s end m w. range_pages s end w)
        range_pages
        indicator_keys
        (some up_to_ten)
        4
        (99 ∷ [])
        0
      ≡ some (ok t, w'))
    × Counted outside three_drives 40
        (λ n s end m w. range_pages s end w)
        range_pages
        indicator_keys
        (some up_to_ten)
        (make_indicator_key (99 ∷ 126 ∷ []))
        two_a_page
        t
        3
unfolding two_a_page str_lt make_indicator_key init_range_keys
count-keys_example =
    count-keys outside three_drives 40 (λ n s end m w. range_pages s end w) range_pages
      indicator_keys (some up_to_ten) (make_indicator_key (99 ∷ 126 ∷ [])) two_a_page (99 ∷ [])
      (make_indicator_key (99 ∷ [])) 4 0 refl refl (omega arith)
