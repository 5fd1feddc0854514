-- ===== src/Client/Life/Examples.antt =====
-- A client that is closed three times.
use goros.Common.{some, none, ◌≡◌}
use goros.Roserr.{eof}
use goros.Client.Processor.{normal}
use goros.Client.Life.{new_life, close_times}
use goros.Client.Life.Laws.{closed_life, close_times-new}

close_times-new_example :
    (close_times 1 (some eof) (new_life, none) ≡ normal (closed_life, some eof))
    × (close_times 3 (some eof) (new_life, none) ≡ normal (closed_life, none))
close_times-new_example = close_times-new 1 (some eof)
