-- ===== src/Worlds/Staging.antt =====
-- Where a scene can be staged, and where its participants are.
use rumor_mill_ai.Prelude.{
  ℕ, ◌≡◌, refl, ap, ◌∙◌, subst, Bool, true, false, ◌&&◌, Option, some, List, [], ◌∷◌, map, select,
  any, contains, subset, dedup_from, ◌==◌, Result, ok, ◌>>=◌, >>=-eq-ok, arith, Bool-cases, inl,
  inr,
}
use rumor_mill_ai.Worlds.Authoring.{
  AuthoredCharacter, AuthoredLocation, AuthoredRoutine, WorldDefinition,
}
use rumor_mill_ai.Worlds.Town.{
  CharacterLocationState, is_public, require, character_of, location_of, validate_day, is_active_at,
  active_routines, location_ids, only_id, optional_location, id_of, name_of, state_of,
  character_location_state, scheduled_at, can_stage_scene,
}
use rumor_mill_ai.Worlds.Presence.{find_last_sound, require-eq-ok}

contains-subset :
    (a : ℕ) (xs ys : List ℕ) → subset xs ys ≡ true → contains a xs ≡ true → contains a ys ≡ true
contains-subset a [] ys s h = cc h
contains-subset a (x ∷ xs) ys s h = elim (Bool-cases (a == x)) [
  | inl hit ↦ let same : a ≡ x = ground arith in rw same (ground arith)
  | inr miss ↦ contains-subset a xs ys (ground arith) (ground arith)
]

contains-dedup_from :
    (a : ℕ) (seen xs : List ℕ)
    → contains a seen ≡ false
    → contains a xs ≡ true
    → contains a (dedup_from seen xs) ≡ true
contains-dedup_from a seen [] new h = cc h
contains-dedup_from a seen (x ∷ xs) new h = elim (Bool-cases (a == x)) [
  | inl hit ↦ let same : a ≡ x = ground arith in rw (← same, new) (ground arith)
  | inr miss ↦
      ground (arith, contains-dedup_from a seen xs new, contains-dedup_from a (x ∷ seen) xs)
]

-- A character that is scheduled at a location is in the list of those that are active there.
scheduled-location :
    (location_id day at p : ℕ) (rs : List AuthoredRoutine)
    → contains p (
        map
          (λ r. r.character_id)
          (select (λ r. r.location_id == location_id && is_active_at day at r) rs))
      ≡ true
    → contains location_id (
        map
          (λ r. r.location_id)
          (select (λ r. r.character_id == p) (select (is_active_at day at) rs)))
      ≡ true
scheduled-location location_id day at p [] h = cc h
scheduled-location location_id day at p (r ∷ rs) h =
    ground (arith, scheduled-location location_id day at p rs)

only_id-contains :
    (a : ℕ) (is : List ℕ) {o : Option ℕ} → contains a is ≡ true → only_id is ≡ ok o → o ≡ some a
only_id-contains a [] h e = cc h
only_id-contains a (i ∷ []) h e = ground arith
only_id-contains a (i ∷ j ∷ is) h e = cc e

optional_location-id :
    (world : WorldDefinition) (i : ℕ) {o : Option AuthoredLocation}
    → optional_location world (some i) ≡ ok o
    → id_of o ≡ some i
optional_location-id world i {o} e =
    let (l, found, last) = >>=-eq-ok (require (location_of world i)) (λ l. ok (some l)) e in
    let here : (l.id == i) ≡ true =
      find_last_sound (λ x. x.id == i) world.locations (require-eq-ok _ found) in
    let same : o ≡ some l = cc last in rw same (ground arith)

can_stage_scene-subset :
    (world : WorldDefinition) (participant_ids : List ℕ) (location_id day at : ℕ)
    → can_stage_scene world participant_ids location_id day at ≡ ok true
    → subset participant_ids (scheduled_at world location_id day at) ≡ true
unfolding can_stage_scene
can_stage_scene-subset world participant_ids location_id day at h = ground arith

state_of-current :
    (world : WorldDefinition) (character : AuthoredCharacter) (active : List AuthoredRoutine)
    (a : ℕ) {st : CharacterLocationState}
    → contains a (location_ids active) ≡ true
    → state_of world character active ≡ ok st
    → st.current_location_id ≡ some a
unfolding state_of
state_of-current world character active a {st} there h =
    let build : Option AuthoredLocation → Option AuthoredLocation → CharacterLocationState =
      λ current home. record {
        character_id = character.id;
        home_location_id = id_of home;
        home_location_name = name_of home;
        current_location_id = id_of current;
        current_location_name = name_of current;
        publicly_present = any (λ r. is_public r.visibility) active;
      } in
    let at_home : Option AuthoredLocation → Result CharacterLocationState = λ current.
      optional_location world character.home_location_id >>= λ home. ok (build current home) in
    let (o, one, rest) =
      >>=-eq-ok (only_id (location_ids active)) (λ i. optional_location world i >>= at_home) h in
    let (current, placed, rest') = >>=-eq-ok (optional_location world o) at_home rest in
    let (home, housed, last) =
      >>=-eq-ok (optional_location world character.home_location_id) (λ x. ok (build current x))
        rest' in
    let chosen : o ≡ some a = only_id-contains a (location_ids active) there one in
    let same : st ≡ build current home = cc last in
    ap (λ x. x.current_location_id) same
    ∙ optional_location-id world a
        (subst (λ i. optional_location world i ≡ ok current) chosen placed)

-- Two queries agree: if a scene can be staged with some participants at a location, then the
-- authored whereabouts of each participant at that day and time, where they are determined, are
-- at that location.
pub can_stage_scene-located :
    (world : WorldDefinition) (participant_ids : List ℕ) (location_id day at p : ℕ)
    (st : CharacterLocationState)
    → can_stage_scene world participant_ids location_id day at ≡ ok true
    → contains p participant_ids ≡ true
    → character_location_state world p day at ≡ ok st
    → st.current_location_id ≡ some location_id
unfolding character_location_state active_routines
can_stage_scene-located world participant_ids location_id day at p st staged among h =
    let of_p : (AuthoredRoutine → Bool) = λ r. r.character_id == p in
    let (character, cast, rest) =
      >>=-eq-ok (require (character_of world p))
        (λ c. active_routines world day at >>= λ rs. state_of world c (select of_p rs)) h in
    let (active, listed, last) =
      >>=-eq-ok (active_routines world day at) (λ rs. state_of world character (select of_p rs))
        rest in
    let (valid, in_season, selected) =
      >>=-eq-ok (validate_day day) (λ x. ok (select (is_active_at day at) world.routines)) listed in
    let same : select (is_active_at day at) world.routines ≡ active = cc selected in
    let here = scheduled-location location_id day at p world.routines (
      contains-subset p participant_ids (scheduled_at world location_id day at)
        (can_stage_scene-subset world participant_ids location_id day at staged) among) in
    state_of-current world character (select of_p active) location_id
      (contains-dedup_from location_id [] (map (λ r. r.location_id) (select of_p active)) refl (
        subst (λ rs. contains location_id (map (λ r. r.location_id) (select of_p rs)) ≡ true) same
          here))
      last
