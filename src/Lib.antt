-- ===== src/Lib.antt =====
-- csnd, the Citizen Seismology Network Daemon: a library of models of its components and of theorems
-- on them.
--
-- The program reads an acceleration sensor every 20 ms. `main` (src/main.cpp) joins the parts: the
-- sampler calls the sensor and hands each record to the recorder and to the detector. The recorder
-- collects records in a bucket; its thread takes full buckets away, and a pool of one thread has them
-- serialized and written to a file, or sent to the hub. The detector watches a window of records and
-- reports a quake, which also goes to a file or to the hub.
--
-- Which file models which part:
--   CircularBuffer: detector/sta_lta_ratio/cb.hpp, `circular_buffer` (`get` is `operator[]`), with the
--     arithmetic of `size_t` written out. The contents are the list of the values in order of arrival.
--   Detector: detector/sta_lta_ratio/slr.cpp and slr.hpp, `detector_slr`; `task` is the task that
--     `push` queues, and `Detector.Reference` describes its alarms on a list of the last values.
--     The pool has one thread, so the tasks of the calls run in their order.
--   Float and Accel: `float` as a type with unspecified operations, and common/accel.hpp.
--   Util: common/util.hpp, `split`, `scoped_guard`, `int64now` and, in Util.Log, the
--     logging templates, with spdlog as the record `Spdlog`. The loop of `split` has one unit of fuel more
--     than there are characters, and each round takes a character.
--   Onavi: sensor/onavi/onavi.cpp and onavi.hpp, `sensor_onavi`. What `open`, `tcsetattr`, `write`,
--     `read` and the clock answer are arguments. The loop of `sample` runs on a list of rounds; 9
--     sleeps of 2 ms are longer than the 17 ms after which it stops. `Onavi.Class` is the sensor as an
--     implementation of the class `sensor`, with what its coming calls meet in the state.
--   Sensor: sensor/sensor.hpp, the class `sensor`, which the sampling thread calls.
--   Recorder: recorder/recorder.hpp and recorder.cpp, `recorder`, as a step function on the state
--     that its three threads share: a step is what a thread does between two points at which another
--     one can interfere, and `exec` runs a sequence of steps in any order. The mutex is held in the state
--     `dozing`; spurious wake-ups are steps.
--   OutputFile: recorder/recorder_local_posix.cpp, how `record` writes a file. The system calls are
--     the record `Os`; `OutputFile.FileSystem` has what the theorem on the disk assumes of them.
--   Sampler: src/sampler.cpp and sampler.hpp, `sampler`. The loop runs on a list of rounds: what it
--     reads from `_stop`, how long the call takes, and how late the sleep ends.
--   Config: src/config.cpp and config.hpp, `config`, from the node that the YAML library returns; the
--     record `Yaml` is that library.
--   AvroCpp: serializer/avro_cpp/avrocpp.cpp and ar.hpp, `serializer_avrocpp`. The Avro library, the
--     compressor and `std::mt19937` are the record `Avro`; that decoders undo encoders is the hypothesis
--     `IsInverse`, and `Plain` has encoders and decoders of that kind.
--   AvroC: serializer/avro_c/avroc.cpp, `serializer_avroc`, in the monad of Exec: `Format` has its
--     constants, `Construct` the constructor and the destructor of its `impl`, `Serialize` its
--     `serialize`. The Avro C library is the record `Library`, and what it documents are the
--     hypotheses of `Laws`; the README reports that the serializer does not work correctly with the
--     library it is linked to, on which nothing is proved here. The state has the local variables
--     that the scoped guards read, which may be indeterminate, and counts what is live.
--   Main: src/main.cpp, the handlers that join the components, the signal handler, and the exits of
--     `main`. `Main.Process` goes from the arguments to the end of the process. `Main.Sensing` runs
--     the sampling thread with a sensor. `Main.Sampling` runs the handler of the sampler with the
--     recorder and the queue of the detector's pool, in any order of turns. `Main.Pool` adds the
--     pool of the recorder, with the flush tasks of recorder/recorder.cpp and the writers of
--     recorder/recorder_local_posix.cpp; its children follow the samples to the disk and to the
--     hub, and the program to its end.
--   Iothub: sender/iothub/iothub.cpp, `sender_iothub`. The client library of the hub is the record
--     `Hub`, which may throw and may call the fallback in the call; theorems that need more of it
--     have the hypothesis `IsPrompt`.
--   Serializer: serializer/serializer.hpp, the class that both serializers implement, with its promise as
--     the predicate `IsSerializer`, on which the theorem on all files in `Main.Sampling.Files` relies.
--   Exec: functions that change a state and may throw, with rules for their outcomes.
--   Prelude: names and lemmas that the modules share.
--
-- Machine integers: the index arithmetic of the circular buffer wraps at 2 ^ 64 in the model; a
-- negative bucket size is the exception that `reserve` throws; what the serializer writes is bounded by
-- hypotheses on the types `int` and `long` of Avro. The trigger count, which the code resets once it is
-- above 3, the sizes of other vectors and the times, in nanoseconds, are natural numbers without a bound.
--
-- Not modelled: a fallback that the library of the hub would call after `send` has returned; the
-- calls of the logging templates, which have no effect on what the components do; what the terminal
-- attributes of the sensor's port do; in avroc.cpp a datum that the library could not allocate,
-- which the code does not look for; the copying rules of the abstract classes; and the test
-- programs. The libraries that the code only calls are parameters: Avro, spdlog, yaml-cpp, the
-- client of the hub, the compressor of Boost, the thread pool.
pub mod Prelude
pub mod CircularBuffer
pub mod Float
pub mod Accel
pub mod Detector
pub mod Util
pub mod Sensor
pub mod Onavi
pub mod Recorder
pub mod OutputFile
pub mod Sampler
pub mod Config
pub mod AvroCpp
pub mod Main
pub mod Exec
pub mod AvroC
pub mod Serializer
pub mod Iothub
