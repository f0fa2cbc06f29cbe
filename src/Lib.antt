-- ===== src/Lib.antt =====
-- Verification of GrandOrgue (grandorgue), a program that plays sampled pipe organs.
--
-- The program's parts and how they interact. MIDI messages come in through a port, become events
-- (FromMidi), go through a merger that keeps bank selects and parameter numbers, and are delivered
-- to the organ; the organ's events go out through a port with a merger of its own (ToMidi). The
-- sound engine works in rounds: the scheduler hands tasks to worker threads; the task of a windchest
-- and an audio group mixes its samplers, several threads at once, into one buffer.
-- Combinations remember the states of drawstops and other elements and bring them back.
-- A manual has its keys from receivers that match events with patterns, and from couplers, which send
-- the keys of one manual on to another; it sets the keys of its division, which the stops sound.
--
-- Files and the code that they are about, with paths from the repository's root:
--   Prelude          lists and tests over the native numbers, integers, bit operations
--   Scheduler        src/grandorgue/scheduler/GOScheduler.cpp and .h, GORoundCounter.h. Each operation
--                    (SetRepeatCount, Clear, Update, Add, Remove, NewRound, CompleteRound, GetNextTask)
--                    is a function on the record Scheduler; NewRound is start_round and CompleteRound
--                    end_round. Insertion and Order are about SortList, Emission about Update,
--                    Handout about GetNextTask, Removal about Remove. A call of GetNextTask is one step,
--                    although the code does not hold the mutex in it
--   Midi/NameMap     src/core/GONameMap.cpp and .h, src/grandorgue/midi/GOMidiMap.h
--   Midi/Event       src/grandorgue/midi/events/GOMidiEvent.h: the event
--   Midi/Message     src/grandorgue/midi/events/GOMidiEvent.cpp: the tests of FromMidi
--   Midi/Receive     src/grandorgue/midi/events/GOMidiEvent.cpp, FromMidi
--   Midi/Send        the same file, ToMidi
--   Midi/Rodgers     src/grandorgue/midi/events/GORodgers.cpp
--   Midi/InputMerger, Midi/OutputMerger
--                    src/grandorgue/midi/GOMidiInputMerger.cpp and GOMidiOutputMerger.cpp
--   Midi/Ports       src/grandorgue/midi/ports: Receive, Send, Open
--   Midi/RoundTrip   what is sent and then received; Reads, Plain and Safety are about what FromMidi
--                    reads of a message and about the events that it gives
--   Midi/PlayerContent
--                    src/grandorgue/midi/GOMidiPlayerContent.cpp and .h (Channels: the channels of manuals)
--   Midi/MessageType src/grandorgue/midi/elements/GOMidiReceiver.cpp: the types of patterns, which fields
--                    each has (Limits: debounce times and limits)
--   Midi/Pattern     src/grandorgue/midi/events/GOMidiEventPattern.cpp and GOMidiReceiverEventPattern.h
--   Midi/Matcher     src/grandorgue/midi/elements/GOMidiReceiver.cpp: Match is match_event. Answer has its
--                    tests for buttons and enclosures; Fields, Debounce and Spacing are about the
--                    patterns, Internals, Removal, Hearing, Apart and SetUp about devices that set an element up,
--                    Enclosure about ranges of programs
--   Sound/SamplerList
--                    src/grandorgue/sound/playing/GOSoundSamplerList.h
--   Sound/Cell       src/grandorgue/sound/tasks/GOSoundWindchestGroupTask.cpp and ProcessSampler of
--                    src/grandorgue/sound/playing/GOSoundSamplerPlayer.cpp
--   Sound/Round      Run of that task by several threads: where each thread is, its steps, and runs in
--                    which the threads, the player and the deadline act in any order
--   Sound/Dropping   the drop counter of ProcessList
--   Combinations/Drawstop
--                    src/grandorgue/model/GODrawstop.cpp and .h. What a drawstop calls of others is a
--                    list of calls, a result of its operations
--   Combinations/Combination
--                    src/grandorgue/combinations/model/GOCombination.cpp and .h, src/core/GOBool3.h.
--                    Push gives a request for each element; an element that is a drawstop obeys it by
--                    SetCombinationState
--   Couplers         src/grandorgue/model/GOCoupler.cpp and .h. What a coupler asks of its destination
--                    manual (SetKeyState) is a list of calls; Output is about each operation, Runs about
--                    sequences of them, Single about bass and melody couplers
--   Manuals          src/grandorgue/model/GOManual.cpp and .h: SetKeyState is set_key_states, for calls one
--                    after the other, each with the calls of the same manual that come back while its
--                    couplers are told. Runs has sequences of operations; Division is about the
--                    velocities of the division, Stops about what the stops are told, Release, Own,
--                    Held and NotesOff about AllNotesOff
--   Network          the same files: manuals and couplers that call each other, with the calls between the
--                    writes where the code has them. Calm is what holds meanwhile, Settling is about one
--                    coupler, Cascade about all calls that follow from one, Settled about the whole;
--                    Weights is what makes it end
--   Examples         tests, and the theorems at concrete inputs
--
-- Numbers. Unsigned words are natural numbers with their wrap-around written out; `int` is ℤ where
-- the code takes bits of it or lets it be negative. `none` is what the code must not come to: a failed
-- assertion, an access outside an array, or a size below zero; in Network, a lack of fuel. Where a
-- definition reads a list with a default (`get_or`, and `byte_at` of FromMidi) the code has tested the
-- index before, or keeps it inside. The exception is a coupler number outside the row of a key: for the
-- code that is undefined behaviour, and in Manuals and Network it reads 0 and writes nothing.
--
-- Fuel. The loop of Update takes a slot or more in each round, so the length of the list is enough;
-- the loop of GetNextTask moves its index on, so the item count and one more is enough. Both are
-- proved, not assumed. The fuel of Network bounds how deep calls of SetKeyState are nested; what is
-- enough is proved as well. All other loops are structural.
--
-- Threads. The steps of a thread in Run are: the test of the state, each of the two parts under the
-- mutex, taking a sampler from a list, and processing a sampler with putting it back. Each retry loop
-- around a compare-and-exchange is one step. The number of threads stays below 2^32.
--
-- What is a parameter: the conversions of wxString (Ascii, and the names of manuals), what the
-- scheduler reads of a task (View), and the signal processing (Dsp). The conversions between wxString
-- and UTF-8 in GOMidiMap are taken as the identity.
--
-- Not modelled: the graphical interface, the configuration, the reading of organ definitions and
-- archives, the drivers of sound and MIDI, the signal processing itself, and vendored code. The
-- buffers are lists of the samplers mixed into them, since floating-point sums do not matter to who is
-- mixed how often.
pub mod Prelude
pub mod Scheduler
pub mod Midi
pub mod Sound
pub mod Combinations
pub mod Couplers
pub mod Manuals
pub mod Network
pub mod Examples
