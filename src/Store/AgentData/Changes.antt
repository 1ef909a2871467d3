-- ===== src/Store/AgentData/Changes.antt =====
-- The persona change events of internal/store/agentx_data.go.
use nukara.Base.{
  String, Bool, ◌==◌, ◌&&◌, ◌||◌, Option, none, some, if◌then◌else◌, ℤ, pos, positive_or, trim,
  is_blank, Map, get, put, delete, values, List, [], ◌∷◌, keep, take, drop, sort_by, eqb,
}
use nukara.Store.Types.{CaseRules, Time, is_zero, after}
use nukara.Store.AgentTypes.{PersonaChangeEvent}
use nukara.Store.State.{Store}

unfoldable pub newer_event : PersonaChangeEvent → PersonaChangeEvent → Bool
newer_event a b =
    if eqb a.created_at b.created_at
    then after a.updated_at b.updated_at
    else after a.created_at b.created_at

-- The first `continue` test of the two loops, negated.
abbrev pub concerns : String → String → PersonaChangeEvent → Bool
concerns user_id bot_id event =
    trim event.user_id == trim user_id && trim event.bot_id == trim bot_id

-- The events of a bot, the newest first.
unfoldable pub events_of : Map PersonaChangeEvent → String → String → List PersonaChangeEvent
unfolding newer_event
events_of m user_id bot_id = sort_by newer_event (keep (concerns user_id bot_id) (values m))

unfoldable pub delete_all :
    List PersonaChangeEvent → Map PersonaChangeEvent → Map PersonaChangeEvent
delete_all [] m = m
delete_all (event ∷ events) m = delete_all events (delete m event.id)

-- prunePersonaChangeEventsLocked with `keep` = `room`
unfoldable pub prune : Map PersonaChangeEvent → String → String → ℤ → Map PersonaChangeEvent
unfolding events_of delete_all
prune m user_id bot_id room = delete_all (drop (positive_or 20 room) (events_of m user_id bot_id)) m

-- The event as CreatePersonaChangeEvent stores it.
unfoldable pub settled_event : Time → String → PersonaChangeEvent → PersonaChangeEvent
settled_event now id event =
    let created = if is_zero event.created_at then now else event.created_at in
    record {
      id = if is_blank event.id then id else event.id;
      user_id = trim event.user_id;
      bot_id = trim event.bot_id;
      field = trim event.field;
      change_type = trim event.change_type;
      proposed_value = trim event.proposed_value;
      source_turn_id = trim event.source_turn_id;
      risk = trim event.risk;
      status = if is_blank event.status then "accepted" else trim event.status;
      reviewer_note = trim event.reviewer_note;
      created_at = created;
      updated_at = if is_zero event.updated_at then created else event.updated_at;
    }

unfoldable pub create_persona_change_event :
    Store → Time → String → PersonaChangeEvent → Store × Option PersonaChangeEvent
unfolding prune settled_event
create_persona_change_event s now id event =
    let saved = settled_event now id event in
    if ((is_blank event.user_id || is_blank event.bot_id) || is_blank event.field)
      || is_blank event.proposed_value
    then (s, none)
    else (
      record s {
        persona_change_events_by_id =
            prune (put s.persona_change_events_by_id saved.id saved) saved.user_id saved.bot_id
              (pos 20);
      },
      some saved,
    )

-- The second `continue` test of ListPersonaChangeEvents, negated.
abbrev pub has_status : CaseRules → String → PersonaChangeEvent → Bool
has_status rules status event =
    trim status == "" || rules.same_fold (trim event.status) (trim status)

unfoldable pub list_persona_change_events :
    CaseRules → Store → String → String → String → ℤ → List PersonaChangeEvent
unfolding newer_event
list_persona_change_events rules s user_id bot_id status limit = take (positive_or 20 limit) (
    sort_by newer_event (
      keep (λ event. concerns user_id bot_id event && has_status rules status event)
        (values s.persona_change_events_by_id)))

unfoldable pub update_persona_change_event_status :
    Store → Time → String → String → String → Store × Option PersonaChangeEvent
update_persona_change_event_status s now change_id status reviewer_note =
    elim (get s.persona_change_events_by_id (trim change_id)) [
      | none ↦ (s, none)
      | some event ↦
          let changed = record event {
            status = trim status;
            reviewer_note = trim reviewer_note;
            updated_at = now;
          } in
          if is_blank change_id || is_blank status then (s, none) else (
            record s {
              persona_change_events_by_id =
                  put s.persona_change_events_by_id (trim change_id) changed;
            },
            some changed,
          )
    ]
