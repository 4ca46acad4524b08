-- ===== src/Syscall/Tests.antt =====
-- Runs of the table of open files.
use myos.Base.{◌≡◌, refl, some, none, ◌==◌, if◌then◌else◌}
use myos.Syscall.{FileTable, allocate_from, fd_allocate, fd_get}

-- Only the place 1 is free.
abbrev nearly_full : FileTable
nearly_full = record { open_files = λ i. if i == 1 then 0 else 0x1018; open_file_count = 7 }

second : (fd_allocate 0x2018 nearly_full).0 ≡ some 4
unfolding fd_allocate allocate_from
second = refl

found : fd_get 4 (fd_allocate 0x2018 nearly_full).1 ≡ 0x2018
unfolding fd_allocate allocate_from fd_get
found = refl

full : (fd_allocate 0x3018 (fd_allocate 0x2018 nearly_full).1).0 ≡ none
unfolding fd_allocate allocate_from
full = refl
