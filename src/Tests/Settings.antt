-- ===== src/Tests/Settings.antt =====
-- A configuration with a section of two items and one of a single item.
use g15daemon.Prelude.{
  ◌≡◌, refl, none, some, List, [], ◌∷◌, arith, map, Returns, fault, if◌then◌else◌,
}
use g15daemon.Text.{equal, codes, lines_from, skip_space}
use g15daemon.Config.Heap.{Config, update}
use g15daemon.Config.{
  done, g15daemon_cfg_write_string, g15daemon_cfg_read_string, g15daemon_cfg_remove_key,
}
use g15daemon.Config.Items.{Cell, IsSection, entries}
use g15daemon.Config.Edit.{Written}
use g15daemon.Config.Write.{g15daemon_cfg_write_string-Written}
use g15daemon.Config.Read.{value_of, read_string-write_string}
use g15daemon.Config.Remove.{g15daemon_cfg_remove_key-fault}
use g15daemon.Config.File.{ignored, read_line, uf_conf_write}
use g15daemon.Config.File.RoundTrip.{plain, comment, IsPrintable, said}
use g15daemon.Config.File.Print.{Place, Sections, contents, uf_conf_write-read_line}

abbrev port : Cell
port = record { at = 11; head = 12; key = codes "Port"; value = codes "15550" }

abbrev note : Cell
note = record { at = 12; head = 12; key = codes "; a note"; value = [] }

abbrev clock : Cell
clock = record { at = 13; head = 13; key = codes "Clock"; value = codes "On" }

abbrev settings : Config
settings = record {
  items =
      update
        (update
          (update (λ _. none) 11
            (some (record {
              next = 12;
              prev = 0;
              head = 12;
              key = codes "Port";
              value = codes "15550";
            })))
          12 (some (record { next = 0; prev = 11; head = 12; key = codes "; a note"; value = [] })))
        13
        (some (record { next = 0; prev = 0; head = 13; key = codes "Clock"; value = codes "On" }));
  sections =
      update
        (update (λ _. none) 1
          (some (record { head = 2; next = 2; sectionname = codes "Net"; items = 11 })))
        2 (some (record { head = 2; next = 0; sectionname = codes "Plugins"; items = 13 }));
  first = 1;
}

net-IsSection : IsSection settings 1 (port ∷ note ∷ [])
unfolding update
net-IsSection = record {
  at = record { head = 2; next = 2; sectionname = codes "Net"; items = 11 };
  ne = omega arith;
  found = refl;
  items = refl;
  chain = (omega arith, refl, refl, (omega arith, refl, refl, tt));
  headed = refl;
}

plugins-IsSection : IsSection settings 2 (clock ∷ [])
unfolding update
plugins-IsSection = record {
  at = record { head = 2; next = 0; sectionname = codes "Plugins"; items = 13 };
  ne = omega arith;
  found = refl;
  items = refl;
  chain = (omega arith, refl, refl, tt);
  headed = refl;
}

g15daemon_cfg_write_string-Written_example :
    Returns
      (λ r. (r.0 ≡ done) × Written 1 14 (codes "Log") (codes "Off") (port ∷ note ∷ []) settings r.1)
      (g15daemon_cfg_write_string 3 14 settings 1 (codes "Log") (codes "Off"))
unfolding update
g15daemon_cfg_write_string-Written_example =
    g15daemon_cfg_write_string-Written 3 14 settings 1 (codes "Log") (codes "Off")
      (port ∷ note ∷ []) net-IsSection (omega arith) (omega arith) refl

read_string-write_string_example :
    Returns
      (λ r.
        Returns
          (λ q. q.0 ≡ (
            if equal (codes "Log") (codes "Port")
            then codes "Off"
            else value_of [] (codes "Port") (entries (port ∷ note ∷ []))))
          (g15daemon_cfg_read_string 4 15 r.1 1 (codes "Port") []))
      (g15daemon_cfg_write_string 4 14 settings 1 (codes "Log") (codes "Off"))
unfolding update
read_string-write_string_example =
    read_string-write_string 4 14 15 settings 1 (codes "Log") (codes "Off") (codes "Port") []
      (port ∷ note ∷ []) net-IsSection (omega arith) (omega arith) (omega arith) (omega arith) refl
      refl

g15daemon_cfg_remove_key-fault_example :
    g15daemon_cfg_remove_key 2 settings 2 (codes "Clock") ≡ fault
unfolding equal
g15daemon_cfg_remove_key-fault_example =
    g15daemon_cfg_remove_key-fault 2 settings 2 (codes "Clock") clock plugins-IsSection refl
      (omega arith)

abbrev places : List Place
places =
    record { at = 1; head = 2; name = codes "Net"; cells = port ∷ note ∷ [] }
    ∷ record { at = 2; head = 2; name = codes "Plugins"; cells = clock ∷ [] }
    ∷ []

places-Sections : Sections settings 2 places
unfolding update
places-Sections = (
  omega arith,
  refl,
  net-IsSection.chain,
  omega arith,
  (omega arith, refl, plugins-IsSection.chain, omega arith, tt),
)

places-IsPrintable : IsPrintable (contents places)
unfolding skip_space
places-IsPrintable = (
  record { one_line = refl; fits = omega arith },
  (
    plain refl (omega arith) (omega arith) refl refl refl (omega arith),
    (comment refl refl (omega arith), tt),
  ),
  (
    record { one_line = refl; fits = omega arith },
    (plain refl (omega arith) (omega arith) refl refl refl (omega arith), tt),
    tt,
  ),
)

uf_conf_write-read_line_example :
    Returns
      (λ text.
        map read_line (lines_from [] text)
        ≡ ignored ∷ ignored ∷ ignored ∷ ignored ∷ said (contents places))
      (uf_conf_write 5 settings)
uf_conf_write-read_line_example =
    uf_conf_write-read_line 5 2 settings places places-Sections refl (omega arith)
      places-IsPrintable
