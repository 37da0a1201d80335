-- ===== src/Avatar/Clips/Tests.antt =====
-- Examples for hydralisk/avatar/clips.py.
use hydralisk.Avatar.Clips.{ClipCatalog, state_clip_cycle}

abbrev catalog : ClipCatalog
catalog = record { frames_per_clip = 192; state_cycles = state_clip_cycle }
