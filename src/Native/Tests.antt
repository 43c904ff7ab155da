-- ===== src/Native/Tests.antt =====
-- Tests of the low-level client, and its theorems at concrete clients.
use archerdb.Base.{ℕ, ◌≡◌, refl, true, false, List, [], ◌∷◌, some, All, arith}
use archerdb.Native.{
  NativeClient, new_client, waiting, in_use, free_tag, tag_count, begin_submit, on_completion,
  timed_out,
}
use archerdb.Native.Tags.{IsTag, free_tag-IsFree}
use archerdb.Native.Inflight.{
  Call, connecting, beginning, completing, ending, disconnecting, run, HasTags, run-HasTags,
}
use archerdb.Native.Delivery.{IsElsewhere, begun_delivered}

-- the tags are about to wrap around, and 65,535 and 1 are in use
abbrev busy : NativeClient
busy = record {
  has_client = true;
  connected = true;
  inflight = (1, 800) ∷ (65_535, 900) ∷ [];
  next_tag = 65_535;
}

free_tag_wraps : free_tag tag_count 65_535 busy.inflight ≡ some 2
unfolding free_tag
free_tag_wraps = refl

-- A request that timed out stays in flight.
abbrev timed_out_calls : List Call
timed_out_calls = connecting true ∷ beginning 700 true ∷ ending timed_out ∷ []

times_out : (run timed_out_calls new_client).inflight ≡ (1, 700) ∷ []
unfolding run
times_out = refl

free_tag-IsFree_example :
    (tag : ℕ) × (free_tag 65_535 65_535 busy.inflight ≡ some tag)
    × IsTag tag
    × (in_use tag busy.inflight ≡ false)
free_tag-IsFree_example =
    free_tag-IsFree 65_535 busy.inflight (omega arith, omega arith) (omega arith)

busy-HasTags : HasTags busy
busy-HasTags = record {
  distinct = ((λ e. omega (arith, e), tt), (tt, tt));
  tagged_right = ((omega arith, omega arith), ((omega arith, omega arith), tt));
}

abbrev other_calls : List Call
other_calls =
    beginning 600 true
    ∷ completing 1 800
    ∷ ending timed_out
    ∷ disconnecting (600 ∷ [])
    ∷ connecting true
    ∷ beginning 500 false
    ∷ completing 65_535 900
    ∷ []

run-HasTags_example : HasTags (run other_calls busy)
run-HasTags_example = run-HasTags other_calls busy busy-HasTags

begun_delivered_example :
    (tag : ℕ) × ((begin_submit 700 true busy).1 ≡ waiting tag)
    × ((calls : List Call)
        → All (IsElsewhere tag 700) calls
        → (on_completion tag 700 (run calls (begin_submit 700 true busy).0)).1 ≡ some 700)
begun_delivered_example = begun_delivered 700 busy busy-HasTags refl refl (omega arith)
