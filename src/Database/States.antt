-- ===== src/Database/States.antt =====
-- `MessageState`, `CONTENT_TRANSITIONS` and `DELIVERY_TRANSITIONS` of
-- src/personal_voice_msg/database.py, and the small enumerations beside them.
use personal_voice_msg.Prelude.{
  ℕ, ◌≡◌, Bool, true, false, Option, none, some, List, [], ◌∷◌, arith, ◌==◌, any,
}

pub data MessageState : Type 0 where
  discovered validated approved queued : MessageState
  reserved audio_ready sending sent failed delivery_unknown : MessageState

pub data DailyRunState : Type 0 where
  claimed completed : DailyRunState

pub data DisableReason : Type 0 where
  stop_command blocked_by_user admin_kill_switch : DisableReason

abbrev rank : MessageState → ℕ
rank discovered = 0
rank validated = 1
rank approved = 2
rank queued = 3
rank reserved = 4
rank audio_ready = 5
rank sending = 6
rank sent = 7
rank failed = 8
rank delivery_unknown = 9

-- `a is b`
unfoldable pub is : MessageState → MessageState → Bool
is a b = rank a == rank b

pub is→eq : (a b : MessageState) → is a b ≡ true → a ≡ b
unfolding is
is→eq a b h = ground arith

pub is_self : (a : MessageState) → is a a ≡ true
unfolding is
is_self a = ground arith

-- `CONTENT_TRANSITIONS.get(state)`
unfoldable pub content_transition : MessageState → Option MessageState
content_transition discovered = some validated
content_transition validated = some approved
content_transition approved = some queued
content_transition _ = none

-- `DELIVERY_TRANSITIONS.get(state, set())`
unfoldable pub delivery_transitions : MessageState → List MessageState
delivery_transitions reserved = audio_ready ∷ []
delivery_transitions audio_ready = sending ∷ []
delivery_transitions sending = sent ∷ failed ∷ delivery_unknown ∷ []
delivery_transitions failed = audio_ready ∷ []
delivery_transitions delivery_unknown = audio_ready ∷ sent ∷ []
delivery_transitions _ = []

-- `target in DELIVERY_TRANSITIONS.get(current, set())`
unfoldable pub can_deliver : MessageState → MessageState → Bool
unfolding delivery_transitions is
can_deliver current target = any (is target) (delivery_transitions current)

-- `outcome in _ATTEMPT_OUTCOMES`
unfoldable pub is_attempt_outcome : MessageState → Bool
unfolding is
is_attempt_outcome s = any (is s) (sent ∷ failed ∷ delivery_unknown ∷ [])

-- `target is CONTENT_TRANSITIONS.get(current)`
unfoldable pub is_content_step : MessageState → MessageState → Bool
unfolding content_transition is
is_content_step current target = elim (content_transition current) [
  | none ↦ false
  | some next ↦ is next target
]
