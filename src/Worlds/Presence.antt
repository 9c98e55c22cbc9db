-- ===== src/Worlds/Presence.antt =====
-- What the queries of the town agree on, and what they show.
use rumor_mill_ai.Prelude.{
  ℕ, ◌≡◌, refl, ap, ◌∙◌, subst, Bool, true, ◌&&◌, Option, none, some, List, [], ◌∷◌, select, any,
  All, any_member, All-weaken_both, All-select, select_sound, find_first, ◌==◌, if◌then◌else◌, ok,
  ◌>>=◌, >>=-eq-ok, arith, Bool-cases, inl, inr,
}
use rumor_mill_ai.Prelude.Order.{sort_by, sort_by-All}
use rumor_mill_ai.Worlds.Authoring.{
  AuthoredCharacter, AuthoredLocation, AuthoredRoutine, AuthoredTravelRoute, WorldDefinition,
}
use rumor_mill_ai.Worlds.Town.{
  PublicPresence, is_public, find_last, require, character_of, location_of, validate_day,
  is_active_at, active_routines, activity_of, presence, cons_presence, presences, presence_order,
  public_presence, leads, travel_minutes,
}

leads_reversed :
    (a b : ℕ) (r : AuthoredTravelRoute) → r.bidirectional ≡ true → leads a b r ≡ leads b a r
leads_reversed a b r two_way = ground arith

find_first-leads :
    (a b : ℕ) (routes : List AuthoredTravelRoute)
    → All (λ r. r.bidirectional ≡ true) routes
    → find_first (leads a b) routes ≡ find_first (leads b a) routes
find_first-leads a b [] two_way = refl
find_first-leads a b (r ∷ rs) two_way =
    rw (leads_reversed a b r two_way.0, find_first-leads a b rs two_way.1)

-- Where all routes are bidirectional, the way back takes as long as the way there, and the query
-- fails in one direction exactly if it fails in the other.
pub travel_minutes_symmetric :
    (world : WorldDefinition) (a b : ℕ)
    → All (λ r. r.bidirectional ≡ true) world.travel_routes
    → travel_minutes world a b ≡ travel_minutes world b a
unfolding travel_minutes
travel_minutes_symmetric world a b two_way =
    rw (find_first-leads a b world.travel_routes two_way) (ground arith)

-- A presence is what a public routine that is active then says of its character.
abbrev pub IsShown : WorldDefinition → (day at : ℕ) → PublicPresence → Type 0
IsShown world day at p =
    any
      (λ r.
        is_public r.visibility
        && (is_active_at day at r
            && (r.character_id == p.character_id && r.location_id == p.location_id)))
      world.routines
    ≡ true

pub find_last_sound :
    {A : Type 0} (p : A → Bool) (xs : List A) {x : A} → find_last p xs ≡ some x → p x ≡ true
find_last_sound p [] e = cc e
find_last_sound p (y ∷ ys) {x} e =
    by_rest (find_last p ys) (λ z h. find_last_sound p ys {x = z} h) refl e
  where
    by_rest :
        (o : Option _)
        → ((z : _) → find_last p ys ≡ some z → p z ≡ true)
        → find_last p ys ≡ o
        → (elim o [ none ↦ (if p y then some y else none) | some z ↦ some z ]) ≡ some x
        → p x ≡ true
    by_rest none sound h k = ground arith
    by_rest (some z) sound h k = let same : z ≡ x = cc k in subst (λ w. p w ≡ true) same (sound z h)

pub require-eq-ok : {A : Type 0} (o : Option A) {a : A} → require o ≡ ok a → o ≡ some a
require-eq-ok none h = cc h
require-eq-ok (some b) h = cc h

presence-ids :
    (world : WorldDefinition) (r : AuthoredRoutine) {p : PublicPresence}
    → presence world r ≡ ok p
    → (p.character_id ≡ r.character_id) × (p.location_id ≡ r.location_id)
unfolding presence
presence-ids world r {p} h =
    let build : AuthoredCharacter → AuthoredLocation → PublicPresence = λ c l. record {
      character_id = c.id;
      character_name = c.name;
      location_id = l.id;
      location_name = l.name;
      activity = activity_of r;
    } in
    let (c, cast, rest) =
      >>=-eq-ok (require (character_of world r.character_id))
        (λ x. require (location_of world r.location_id) >>= λ l. ok (build x l)) h in
    let (l, placed, last) =
      >>=-eq-ok (require (location_of world r.location_id)) (λ x. ok (build c x)) rest in
    let same : p ≡ build c l = cc last in
    let own : (c.id == r.character_id) ≡ true =
      find_last_sound (λ x. x.id == r.character_id) world.cast (require-eq-ok _ cast) in
    let here : (l.id == r.location_id) ≡ true =
      find_last_sound (λ x. x.id == r.location_id) world.locations (require-eq-ok _ placed) in
    (ap (λ x. x.character_id) same ∙ ground arith, ap (λ x. x.location_id) same ∙ ground arith)

-- What a public presence of the routine `r` shows is there.
abbrev Shows : WorldDefinition → (day at : ℕ) → AuthoredRoutine → Type 0
Shows world day at r =
    (p : PublicPresence)
    → is_public r.visibility ≡ true
    → p.character_id ≡ r.character_id
    → p.location_id ≡ r.location_id
    → IsShown world day at p

active-Shows :
    (world : WorldDefinition) (day at : ℕ)
    → All (Shows world day at) (select (is_active_at day at) world.routines)
active-Shows world day at =
    All-weaken_both (λ r. (q : _) → q r ≡ true → any q world.routines ≡ true)
      (λ r. is_active_at day at r ≡ true) (Shows world day at)
      (λ r member now p public_one own here. member _ (ground arith))
      (select (is_active_at day at) world.routines)
      (All-select _ (is_active_at day at) world.routines (any_member world.routines))
      (select_sound (is_active_at day at) world.routines)

presences-IsShown :
    (world : WorldDefinition) (day at : ℕ) (rs : List AuthoredRoutine) {ps : List PublicPresence}
    → All (Shows world day at) rs
    → presences world rs ≡ ok ps
    → All (IsShown world day at) ps
unfolding presences
presences-IsShown world day at [] {ps} shows h =
    let same : [] ≡ ps = cc h in subst (All (IsShown world day at)) same tt
presences-IsShown world day at (r ∷ rs) {ps} shows h = elim (Bool-cases (is_public r.visibility)) [
  | inr hidden ↦ presences-IsShown world day at rs shows.1 (rw hidden at h)
  | inl public_one ↦
      let (p, one, rest) =
        >>=-eq-ok (presence world r) (λ x. presences world rs >>= cons_presence x)
          (rw public_one at h) in
      let (qs, others, last) = >>=-eq-ok (presences world rs) (cons_presence p) rest in
      let same : p ∷ qs ≡ ps = cc last in
      let ids = presence-ids world r one in
      subst (All (IsShown world day at)) same
        (shows.0 p public_one ids.0 ids.1, presences-IsShown world day at rs shows.1 others)
]

-- No spoilers: each presence that the public query returns is of a public routine of that
-- character at that location, which is active at the day and time asked for.
pub public_presence-IsShown :
    (world : WorldDefinition) (day at : ℕ) (ps : List PublicPresence)
    → public_presence world day at ≡ ok ps
    → All (IsShown world day at) ps
unfolding public_presence active_routines
public_presence-IsShown world day at ps h =
    let (active, listed, rest) =
      >>=-eq-ok (active_routines world day at)
        (λ x. presences world x >>= λ found. ok (sort_by presence_order found)) h in
    let (found, shown, last) =
      >>=-eq-ok (presences world active) (λ x. ok (sort_by presence_order x)) rest in
    let (valid, in_season, selected) =
      >>=-eq-ok (validate_day day) (λ x. ok (select (is_active_at day at) world.routines)) listed in
    let same : select (is_active_at day at) world.routines ≡ active = cc selected in
    let sorted : sort_by presence_order found ≡ ps = cc last in
    subst (All (IsShown world day at)) sorted (
      sort_by-All presence_order (IsShown world day at) found (
        presences-IsShown world day at active
          (subst (All (Shows world day at)) same (active-Shows world day at)) shown))
