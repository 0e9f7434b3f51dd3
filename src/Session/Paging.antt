-- ===== src/Session/Paging.antt =====
-- Browse paging: the continuation points of a session are bounded in number and never met twice.
use opcuapp.Base.{
  ℕ, ◌^◌, ◌≤◌, ◌<◌, ◌≡◌, refl, false, ◌||◌, none, List, [], length, leb, ◌==◌, take, drop,
}
use opcuapp.Base.Keyed.{find, assign}
use opcuapp.Binary.Codec.{encode_uint32}
use opcuapp.Subscription.State.{next_uint32}
use opcuapp.Session.State.{ServerSession}
use opcuapp.Session.Browse.{
  bytes_key, max_browse_continuation_points, BrowseResult, emplace, make_browse_continuation_point,
  page_browse_result,
}

-- The continuation point of a counter's value.
abbrev pub point : ℕ → List ℕ
point c = encode_uint32 [] c

module _ {R : Type 0} where
  -- At most 100 points are open, and none of those that the counter is still to give.
  pub record IsPaged (s : ServerSession R) : Type 0 where
    pub bounded : length s.browse_continuations ≤ max_browse_continuation_points
    pub fresh :
        (c : ℕ)
        → s.next_browse_continuation_id ≤ c
        → c < 2 ^ 32
        → find (point c) s.browse_continuations ≡ none

  -- The session and the page of a result with more than `n` references, whose point is not taken.
  abbrev pub opened : ServerSession R → BrowseResult R → ℕ → ServerSession R × BrowseResult R
  opened s result n = (
    record s {
      next_browse_continuation_id = next_uint32 s.next_browse_continuation_id;
      browse_continuations =
          assign (point s.next_browse_continuation_id) (drop n result.references)
            s.browse_continuations;
    },
    record result {
      references = take n result.references;
      continuation_point = point s.next_browse_continuation_id;
    },
  )

  emplace_new :
      (k : List ℕ) (v : List R) (m : List (List ℕ × List R))
      → find k m ≡ none
      → emplace k v m ≡ assign k v m
  unfolding emplace
  emplace_new k v m e = rw (e, emplace) refl

  pub page_browse_result-opened :
      (s : ServerSession R) (result : BrowseResult R) (n : ℕ)
      → (n == 0 || leb (length result.references) n) ≡ false
      → leb 100 (length s.browse_continuations) ≡ false
      → find (point s.next_browse_continuation_id) s.browse_continuations ≡ none
      → page_browse_result s result n ≡ opened s result n
  unfolding page_browse_result make_browse_continuation_point
  page_browse_result-opened s result n f g e =
      rw (f, g, emplace_new _ (drop n result.references) _ e) refl
