-- ===== src/Agent/Pipeline/Phases.antt =====
-- How many phases of the main goroutine are left, in both programs.
use tailpost.Base.{ℕ, suc, ◌<◌, ◌≡◌, ◌≢◌, refl, arith}
use tailpost.Agent.Pipeline.{
  Program, agent_main, agent_single, Phase, starting, waiting, stopping_reader, stopping_sender,
  stopping_health, awaiting, finished, next_phase,
}

-- The phases that are left.
abbrev pub rank : Program → Phase → ℕ
rank p starting = 6
rank p waiting = 5
rank agent_main stopping_reader = 4
rank agent_main stopping_sender = 3
rank agent_main stopping_health = 2
rank agent_single stopping_health = 4
rank agent_single stopping_sender = 3
rank agent_single stopping_reader = 2
rank p awaiting = 1
rank p finished = 0

pub rank-next : (p : Program) (f : Phase) → f ≢ finished → rank p f ≡ suc (rank p (next_phase p f))
unfolding next_phase
rank-next agent_main starting h = refl
rank-next agent_main waiting h = refl
rank-next agent_main stopping_reader h = refl
rank-next agent_main stopping_sender h = refl
rank-next agent_main stopping_health h = refl
rank-next agent_main awaiting h = refl
rank-next agent_main finished h = absurd (h refl)
rank-next agent_single starting h = refl
rank-next agent_single waiting h = refl
rank-next agent_single stopping_reader h = refl
rank-next agent_single stopping_sender h = refl
rank-next agent_single stopping_health h = refl
rank-next agent_single awaiting h = refl
rank-next agent_single finished h = absurd (h refl)

pub rank_finished : (p : Program) → rank p finished ≡ 0
rank_finished agent_main = refl
rank_finished agent_single = refl

pub rank_zero : (p : Program) (f : Phase) → rank p f ≡ 0 → f ≡ finished
rank_zero agent_main finished h = refl
rank_zero agent_single finished h = refl
rank_zero _ _ h = absurd (omega (arith, h))

pub left-next :
    (p : Program) (f : Phase)
    → f ≢ stopping_reader
    → rank p (next_phase p f) < rank p stopping_reader
    → rank p f < rank p stopping_reader
unfolding next_phase
left-next agent_main starting n h = absurd (omega (arith, h))
left-next agent_single starting n h = absurd (omega (arith, h))
left-next agent_main waiting n h = absurd (omega (arith, h))
left-next agent_single waiting n h = absurd (omega (arith, h))
left-next p stopping_reader n h = absurd (n refl)
left-next agent_main stopping_sender n h = omega arith
left-next agent_single stopping_sender n h = absurd (omega (arith, h))
left-next agent_main stopping_health n h = omega arith
left-next agent_single stopping_health n h = absurd (omega (arith, h))
left-next agent_main awaiting n h = omega arith
left-next agent_single awaiting n h = omega arith
left-next agent_main finished n h = omega arith
left-next agent_single finished n h = omega arith

pub finished-left : (p : Program) → rank p finished < rank p stopping_reader
finished-left agent_main = omega arith
finished-left agent_single = omega arith

pub starting-not_left : (p : Program) → rank p starting < rank p stopping_reader → ⊥
starting-not_left agent_main h = omega (arith, h)
starting-not_left agent_single h = omega (arith, h)
