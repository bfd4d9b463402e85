-- ===== src/Hooks/Data/Events/Tracks.antt =====
-- The two flags of the hook, loading and loadingMore, and the calls that are under way: what the
-- functions of useStudioData.ts keep of the tie between them.
use beast_db.Prelude.{
  ℕ, ◌≤◌, ◌≡◌, refl, ◌∙◌, Bool, true, false, not, ◌&&◌, Option, none, some, List, [], ◌∷◌, arith,
  count, count-append, if◌then◌else◌, Option-cases, inl, inr,
}
use beast_db.Js.Text.{Text}
use beast_db.Js.Fetch.{Request}
use beast_db.Js.Uri.{encode_uri_component}
use beast_db.Types.{TelemetryStats, SessionUser}
use beast_db.Hooks.Api.{Result, failed, done}
use beast_db.Hooks.Data.{
  Studio, Call, partition, listing, counts, more, write, Session, send, load_partition, refresh,
  fetch_stats, load_more, remove, more_url, get_of, on_hook,
}
use beast_db.Hooks.Data.Events.{got_stats, got_write, got_user}

abbrev pub is_more : Call → Bool
is_more (more url) = true
is_more _ = false

abbrev pub is_load : Call → Bool
is_load (partition url) = true
is_load listing = true
is_load counts = true
is_load _ = false

-- loadingMore counts the calls of loadMore that are under way, and loading has a call under way
-- that will end it.
pub record TracksIn (s : Session) : Type 0 where
  pub one_more : count is_more s.pending ≡ (if s.hook.loading_more then 1 else 0)
  pub load_waits : s.hook.loading ≡ true → s.escaped ≡ false → 1 ≤ count is_load s.pending

-- The same while the answer of one more call is at hand.
abbrev pub Owes : Call → Session → Type 0
Owes c s = TracksIn (record s { pending = c ∷ s.pending })

pub Tracks-send : (c : Call) (rs : List Request) (s : Session) → Owes c s → TracksIn (send c rs s)
Tracks-send c rs s h = record {
  one_more = omega (arith, count-append is_more s.pending (c ∷ []), h.one_more);
  load_waits = λ a b. omega (arith, count-append is_load s.pending (c ∷ []), h.load_waits a b);
}

-- A load that begins, and a call that is neither a load nor loadMore.
pub Owes-begin :
    (c : Call) (s : Session) (h : Studio)
    → is_more c ≡ false
    → is_load c ≡ true
    → h.loading_more ≡ s.hook.loading_more
    → count is_more s.pending ≡ (if s.hook.loading_more then 1 else 0)
    → Owes c (record s { hook = h })
Owes-begin c s h a b e k = record {
  one_more = rw (a, e) (omega (arith, k));
  load_waits = λ x y. rw b (omega arith);
}

pub Owes-aside : (c : Call) (s : Session) → is_more c ≡ false → TracksIn s → Owes c s
Owes-aside c s a h = record {
  one_more = rw a (omega (arith, h.one_more));
  load_waits = λ x y. omega (arith, h.load_waits x y);
}

pub Owes-got_stats :
    (c : Call) (r : Result (Option TelemetryStats)) (s : Session)
    → Owes c s
    → Owes c (got_stats r s)
unfolding got_stats
Owes-got_stats c (failed m) s h = record { one_more = h.one_more; load_waits = h.load_waits }
Owes-got_stats c (done none) s h = record { one_more = h.one_more; load_waits = λ x y. cc }
Owes-got_stats c (done (some t)) s h = record { one_more = h.one_more; load_waits = h.load_waits }

pub Tracks-more :
    (url : Text) (s : Session)
    → Owes (more url) s
    → (h : Studio) → h.loading_more ≡ false
    → h.loading ≡ s.hook.loading
    → TracksIn (record s { hook = h })
Tracks-more url s k h a b = record {
  one_more = ground (arith, k.one_more);
  load_waits = λ x y. omega (arith, k.load_waits (cc) y);
}

-- A load that is over: what it leaves is not loading.
pub Tracks-end :
    (c : Call) (s : Session) (h : Studio)
    → is_more c ≡ false
    → h.loading ≡ false
    → h.loading_more ≡ s.hook.loading_more
    → Owes c s
    → TracksIn (record s { hook = h })
Tracks-end c s h a b e k = record {
  one_more = rw e (omega (arith, (rw a at k.one_more)));
  load_waits = λ x y. cc;
}

pub Tracks-load_partition : (p : ℕ) (s : Session) → TracksIn s → TracksIn (load_partition p s)
unfolding load_partition
Tracks-load_partition p s h =
    Tracks-send _ _ _ (Owes-begin (partition _) s _ refl refl refl h.one_more)

pub Tracks-refresh : (s : Session) → TracksIn s → TracksIn (refresh s)
unfolding refresh
Tracks-refresh s h = Tracks-send _ _ _ (Owes-begin listing s _ refl refl refl h.one_more)

pub Tracks-fetch_stats :
    (c : Call) (b : Bool) (s : Session) → Owes c s → TracksIn (fetch_stats c b s)
unfolding fetch_stats
Tracks-fetch_stats c b s h = Tracks-send _ _ _ h

pub Tracks-if :
    (b : Bool) (x y : Session)
    → (b ≡ true → TracksIn x)
    → TracksIn y
    → TracksIn (if b then x else y)
Tracks-if true x y h k = h refl
Tracks-if false x y h k = k

pub Tracks-load_more : (s : Session) → TracksIn s → TracksIn (load_more s)
unfolding load_more
Tracks-load_more s h =
    Tracks-if (s.hook.has_more && not s.hook.loading_more) _ s
      (λ e.
        Tracks-send (more (more_url s.hook)) (get_of (more_url s.hook) ∷ [])
          (on_hook (λ h. record h { loading_more = true }) s)
          (record {
            one_more = ground (arith, h.one_more);
            load_waits = λ x y. omega (arith, h.load_waits x y);
          }))
      h

pub Tracks-remove : (key : Text) (s : Session) → TracksIn s → TracksIn (remove key s)
unfolding remove
Tracks-remove key s h = elim (Option-cases (encode_uri_component key)) [
  | inl e ↦ rw (e, remove) h
  | inr (k, e) ↦ rw (e, remove) (Tracks-send _ _ _ (Owes-aside (write _) s refl h))
]

pub loading_more-got_user :
    (r : Result (Option SessionUser)) (h : Studio) → (got_user r h).loading_more ≡ h.loading_more
unfolding got_user
loading_more-got_user (failed m) h = refl
loading_more-got_user (done u) h = refl

pub Tracks-counts :
    (s : Session) (r : Result (Option SessionUser)) (h : Studio)
    → h.loading_more ≡ s.hook.loading_more
    → Owes listing s
    → TracksIn (fetch_stats counts true (record s { hook = got_user r h }))
Tracks-counts s r h e k = Tracks-fetch_stats counts true _ (
    Owes-begin counts s (got_user r h) refl refl (loading_more-got_user r h ∙ e)
      (omega (arith, k.one_more)))

pub Tracks-got_write :
    (url : Text) (r : Result (Option (Unit {0}))) (s : Session)
    → Owes (write url) s
    → TracksIn (got_write r s)
unfolding got_write
Tracks-got_write url (failed m) s h = record {
  one_more = omega (arith, h.one_more);
  load_waits = λ x y. omega (arith, h.load_waits x y);
}
Tracks-got_write url (done u) s h = Tracks-refresh s (record {
  one_more = omega (arith, h.one_more);
  load_waits = λ x y. omega (arith, h.load_waits x y);
})
