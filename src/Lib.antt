-- ===== src/Lib.antt =====
-- The g15daemon: a daemon that draws on the 160 x 43 display of a Logitech G15 keyboard for several
-- clients and turns the keyboard's extra keys into input events.
--
-- Prelude      names that every module shares, tests on numbers, runs that may fault (Run)
-- Gfx          g15daemon/g15daemon/gfx_primitives.c: setpixel, line, rectangle, draw_bignum
-- Lcd          the record lcd_t of g15daemon/g15daemon/g15daemon.h, and create_lcd
-- Screen       convert_buf and lcdclock of g15daemon/g15daemon/utility_funcs.c
-- Daemon       the display list and its nodes (g15daemon/g15daemon/g15daemon.h) with the global
--              variables about keys and clients, as one state
-- LinkedLists  g15daemon/g15daemon/linked_lists.c, and the loop of g15_process_keys that cycles
--              the screens
-- Keys         g15_process_keys of g15daemon/g15daemon/utility_funcs.c
-- OsKeys       the key mapping of g15daemon-wip/plugins/g15_plugin_uinput.c
-- Displays     the display list of the next daemon, g15daemon-wip/g15daemon/linked_lists.c
-- Requests     send_keystate and process_client_cmds of g15daemon/g15daemon/g15_net.c
-- Client       g15_send_cmd, new_g15_screen and g15_recv of g15daemon/libg15daemon_client/g15daemon_net.c
-- Transfer     g15_send and g15_recv of g15daemon/g15daemon/g15_net.c, and g15_send of the client
--              library
-- Text         C strings and the functions of the C library on them
-- Config       the configuration of g15daemon-wip/g15daemon/utility_funcs.c: g15daemon_cfg_*,
--              uf_conf_free, uf_conf_open and uf_conf_write
-- Threads      a round of keyboard_watch_thread and of lcd_draw_thread, g15daemon/g15daemon/main.c
-- Session      g15_clientconnect and lcd_client_thread of g15daemon/g15daemon/utility_funcs.c
-- System       the threads together: a step of one of them on the state that they share
-- Start        the arguments, the start and the signals of main, g15daemon/g15daemon/main.c
-- Stats        keyboard_watch, calc_info_cycle, get_next, get_sensors and network_watch of
--              g15daemon-clients/g15stats/g15stats.c
-- Tests        the theorems at concrete inputs
--
-- The clients' pictures and the clock are drawn by Screen with the primitives of Gfx into the buffer
-- of an Lcd; each Lcd stands in a node of the display list of Daemon, which LinkedLists changes and
-- Keys moves along. A byte that Client sends is a request that Requests handles on the same state,
-- and its answer goes back to Client.
--
-- A client's thread (Session) adds a screen to the list, takes in its pictures with Transfer, which
-- hands the requests in between to Requests, and removes the screen in the end. The display thread
-- (Threads) puts the screen that is shown on the device, and the keyboard thread gives what is pressed
-- to Keys.
--
-- The configuration (Config), the key mapping (OsKeys) and the list of Displays belong to the next
-- version of the daemon, in g15daemon-wip. The configuration stands on a heap of its own. Stats is a
-- program of its own, a client of the daemon.
--
-- A write outside the buffer and a use of NULL or of a node that is not allocated are the value
-- `fault` of Run. The loops of `line`, of `rectangle`, of the display list and of the configuration
-- run on fuel, and `out_of_fuel` is what they give when it does not suffice. `line` gives its loop one
-- more than the distance it has to go, `rectangle` one more than its rows, and the loops of the lists
-- need as much as there are screens, sections or items. `get_next` gives its loop one round for each
-- sensor, and `get_sensors` needs a round for each try that is left and each path of a sensor. The loops of the sockets and of the client
-- threads take a list of what happens in each round, and are out of fuel where it ends too early. An
-- int is a number below 2 ^ 32 with its wrap-around written out.
--
-- The masks of the keys and the levels of the lights are constants of libg15, the time and its text
-- and the random numbers come from the C library, what a socket answers from the environment, and an
-- allocated address from `g15_xmalloc`, the files of the sensors and the arithmetic of floats from the
-- machine: they are arguments. Log messages, mutexes (each operation of
-- the list is one step), the opening of sockets, the joining of threads, fork and the pid file, and the
-- device files are not modelled.
pub mod Prelude
pub mod Gfx
pub mod Lcd
pub mod Screen
pub mod Daemon
pub mod LinkedLists
pub mod Keys
pub mod OsKeys
pub mod Displays
pub mod Requests
pub mod Client
pub mod Transfer
pub mod Threads
pub mod Session
pub mod System
pub mod Start
pub mod Stats
pub mod Text
pub mod Config
mod Tests
