-- ===== src/Logger/Levels.antt =====
-- The level of a logger selects lines, and keeps their order.
use tacopie.Prelude.{
  sym, ap, ◌∙◌, ℕ, leb, ◌≡◌, refl, true, false, List, [], ◌∷◌, some, if◌then◌else◌, arith,
  Bool-cases, inl, inr,
}
use tacopie.Logger.{
  LogLevel, error, warn, info, debug, rank, Message, Streams, log, log_all, log_active,
}

-- The messages that a level lets through.
abbrev pub selected : LogLevel → List Message → List Message
selected m_level [] = []
selected m_level (m ∷ ms) =
    let rest = selected m_level ms in if leb (rank m.level) (rank m_level) then m ∷ rest else rest

module _ (decimal : ℕ → List ℕ) where
  log-debug :
      (l : LogLevel) (m : Message) (s : Streams)
      → leb (rank m.level) (rank l) ≡ true
      → log decimal debug m s ≡ log decimal l m s
  unfolding log
  log-debug l m s passes = ground (arith, below_debug m.level, passes)
    where
      below_debug : (l : LogLevel) → leb (rank l) 3 ≡ true
      below_debug error = refl
      below_debug warn = refl
      below_debug info = refl
      below_debug debug = refl

  log-dropped :
      (l : LogLevel) (m : Message) (s : Streams)
      → leb (rank m.level) (rank l) ≡ false
      → log decimal l m s ≡ s
  unfolding log
  log-dropped l m s dropped = rw (dropped, log) refl

  -- What a logger with a level writes of a run of messages is what one without a limit writes of those
  -- whose level is not above its own.
  pub log_all-selected :
      (m_level : LogLevel) (ms : List Message) (s : Streams)
      → log_all decimal (some m_level) ms s ≡ log_all decimal (some debug) (selected m_level ms) s
  unfolding log_all log_active
  log_all-selected m_level [] s = refl
  log_all-selected m_level (m ∷ ms) s = elim (Bool-cases (leb (rank m.level) (rank m_level))) [
    | inl e ↦
        let same = log-debug m_level m s e in
        rw (e) (
          log_all-selected m_level ms (log decimal m_level m s)
          ∙ ap (log_all decimal (some debug) (selected m_level ms)) (sym same))
    | inr e ↦ rw (log-dropped m_level m s e, e) (log_all-selected m_level ms s)
  ]
