-- ===== src/Session/Browse.antt =====
-- The Browse continuation points of a ServerSession: paging a result and resuming it. A continuation
-- point is the four bytes of a counter, least significant first.
use opcuapp.Base.{
  ℕ, Bool, ◌||◌, none, some, List, [], ◌∷◌, length, leb, ◌==◌, if◌then◌else◌, take, drop,
}
use opcuapp.Base.Keyed.{Key, find, remove, assign}
use opcuapp.Types.Status.{good, of_code, bad_no_continuation_points, bad_continuation_point_invalid}
use opcuapp.Types.NodeId.{same_bytes, same_bytes_iff}
use opcuapp.Binary.Codec.{encode_uint32}
use opcuapp.Subscription.State.{next_uint32}
use opcuapp.Session.State.{ServerSession}

instance abbrev pub bytes_key : Key (List ℕ)
bytes_key = record { same = same_bytes; same_iff = same_bytes_iff }

abbrev pub max_browse_continuation_points : ℕ
max_browse_continuation_points = 100

pub record BrowseResult (R : Type 0) : Type 0 where
  pub status_code : ℕ
  pub continuation_point : List ℕ
  pub references : List R

-- The hash map's `emplace`: an entry that is there stays.
unfoldable pub emplace {ℓ} : {V : Type ℓ} → List ℕ → V → List (List ℕ × V) → List (List ℕ × V)
emplace k v m = elim (find k m) [ none ↦ assign k v m | some w ↦ m ]

module _ {R : Type 0} where
  abbrev pub status_result : ℕ → BrowseResult R
  status_result status = record {
    status_code = of_code status;
    continuation_point = [];
    references = [];
  }

  unfoldable pub make_browse_continuation_point : ServerSession R → ServerSession R × List ℕ
  unfolding encode_uint32
  make_browse_continuation_point s = (
    record s { next_browse_continuation_id = next_uint32 s.next_browse_continuation_id },
    encode_uint32 [] s.next_browse_continuation_id,
  )

  unfoldable pub page_browse_result :
      ServerSession R → BrowseResult R → ℕ → ServerSession R × BrowseResult R
  unfolding make_browse_continuation_point emplace
  page_browse_result s result requested_max =
      let (s', continuation_point) = make_browse_continuation_point s in
      if requested_max == 0 || leb (length result.references) requested_max
      then (s, record result { continuation_point = [] })
      else if leb max_browse_continuation_points (length s.browse_continuations)
      then (s, status_result bad_no_continuation_points)
      else (
        record s' {
          browse_continuations =
              emplace continuation_point (drop requested_max result.references)
                s'.browse_continuations;
        },
        record result {
          references = take requested_max result.references;
          continuation_point = continuation_point;
        },
      )

  unfoldable pub store_browse_results_loop :
      ServerSession R → List (BrowseResult R) → ℕ → ServerSession R × List (BrowseResult R)
  store_browse_results_loop s [] requested_max = (s, [])
  store_browse_results_loop s (result ∷ results) requested_max =
      let (s', paged) = page_browse_result s result requested_max in
      let (s'', rest) = store_browse_results_loop s' results requested_max in (s'', paged ∷ rest)

  unfoldable pub store_browse_results :
      ServerSession R → List (BrowseResult R) → ℕ → ServerSession R × List (BrowseResult R)
  unfolding store_browse_results_loop
  store_browse_results s results requested_max =
      if requested_max == 0 then (s, results) else store_browse_results_loop s results requested_max

  unfoldable pub resume_browse_result : ServerSession R → List ℕ → ServerSession R × BrowseResult R
  resume_browse_result s continuation_point =
      elim (find continuation_point s.browse_continuations) [
        | none ↦ (s, status_result bad_continuation_point_invalid)
        | some remaining ↦ (
          record s { browse_continuations = remove continuation_point s.browse_continuations },
          record (status_result good) { references = remaining },
        )
      ]

  -- One round of the loop of BrowseNext.
  unfoldable pub browse_next_one :
      ServerSession R → Bool → List ℕ → ServerSession R × BrowseResult R
  unfolding resume_browse_result
  browse_next_one s release continuation_point =
      elim (find continuation_point s.browse_continuations) [
        | none ↦ (s, status_result bad_continuation_point_invalid)
        | some remaining ↦
            if release
            then (
              record s { browse_continuations = remove continuation_point s.browse_continuations },
              status_result good,
            )
            else resume_browse_result s continuation_point
      ]

  unfoldable pub browse_next :
      ServerSession R → Bool → List (List ℕ) → ServerSession R × List (BrowseResult R)
  unfolding browse_next_one
  browse_next s release [] = (s, [])
  browse_next s release (continuation_point ∷ continuation_points) =
      let (s', result) = browse_next_one s release continuation_point in
      let (s'', results) = browse_next s' release continuation_points in (s'', result ∷ results)
