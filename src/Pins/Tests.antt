-- ===== src/Pins/Tests.antt =====
-- A pin of files that give back what was written to them.
use sufficient_io_t_applicat.Base.{List, ◌≡◌, refl, true, none, some, [], ◌∷◌}
use sufficient_io_t_applicat.Gpio.Attributes.{line_after}
use sufficient_io_t_applicat.Gpio.Tests.{files, files-IsPin, driven, driven-Proper, idle}
use sufficient_io_t_applicat.Pins.{Wake, call_interrupt_handler, Interrupts, Board, gpio_toggle}
use sufficient_io_t_applicat.Pins.Switching.{gpio_toggle_lem}

abbrev fresh : Interrupts
fresh = record { pin = 0; handler = 0; status = 0; threads = 0 }

abbrev driving : Board
driving = record { past = driven; reports = 0; interrupts = fresh }

goes_up :
    let toggled = gpio_toggle files 70 driving in
    (line_after 70 idle toggled.past ≡ record { out = true; high = true; edge = 0 })
    × (toggled.reports ≡ 0)
goes_up = gpio_toggle_lem files 70 idle files-IsPin driving driven-Proper refl

-- The pin goes up, comes down again, and cannot be read.
abbrev rounds : List (Wake × Interrupts)
rounds =
    (record { watched = true; byte = some b'1' }, record fresh { handler = 5 })
    ∷ (record { watched = true; byte = some b'0' }, record fresh { handler = 5 })
    ∷ (record { watched = true; byte = none }, record fresh { handler = 5 })
    ∷ []

called_once : call_interrupt_handler rounds ≡ 5 ∷ []
unfolding call_interrupt_handler
called_once = refl
