-- ===== src/Dashboard/Color.antt =====
-- The COLOR_ constants of trace.c.
use kernel_tracing.Prelude.{ℕ}

abbrev pub normal : ℕ
normal = 0x07

abbrev pub title : ℕ
title = 0x0f

abbrev pub green : ℕ
green = 0x0a

abbrev pub cyan : ℕ
cyan = 0x0b

abbrev pub yellow : ℕ
yellow = 0x0e

abbrev pub red : ℕ
red = 0x0c
