-- ===== src/Lib.antt =====
-- jenlib is a C++ library for small BLE sensors and the broker that collects their readings. This
-- development models its parts: the wire format of the messages, the buffer between a radio and the
-- program, the drivers of the radios and of the pins, the OneWire buses, the event dispatcher, the
-- timers, and the state machines of the two roles. What a platform library answers is an argument.
--
-- The parts and how they interact
--   A sensor and a broker exchange three messages in payloads of at most 64 bytes. A driver keeps the
--   payloads that have arrived in a PayloadBuffer; its callbacks drive a SensorStateMachine or a
--   BrokerStateMachine, which also take events from the EventDispatcher. Timers of the time service
--   pace the measurements; the state machines read its clock. A sensor reads its pins through the GPIO
--   wrapper, on which the native OneWire bus stands.
--
-- The files
--   Common: the libraries' names passed on; Common/Tests the Boolean tests, Common/Lists the lists over
--     the native numbers, Common/Bits facts of bit operations, Common/Int the signed 16-bit values,
--     Common/Ring the circular buffers that Ble/Buffer and Events share, Common/Text and
--     Common/Equality texts and their comparison, Common/Float the operations of float as a record,
--     Common/Table tests over all bytes, Common/Checksum the checksums that take in byte by byte.
--   Ble/Payload: include/jenlib/ble/Payload.h. A BlePayload is its array and its size; a writer returns
--     its Boolean and the new payload, a reader also the moved index or iterator. Payload/Content says
--     what the writers do to the content, Payload/Reading what the readers find in it.
--   Ble/Crc and Ble/Ids: include/jenlib/ble/Ids.h and src/ble/Ids.cpp (crc8, DeviceId::serialize, both
--     DeviceId::deserialize).
--   Ble/Messages: include/jenlib/ble/Messages.h and src/ble/Messages.cpp, a module per message with
--     serialize and deserialize, its Wire child with the encoding on bytes.
--   Ble/Buffer: include/jenlib/ble/PayloadBuffer.h; Buffer/Fifo the queue that it implements.
--   Ble/Native: src/ble/drivers/NativeBleDriver.cpp. Native/Header is about the header of advertised
--     payloads, Native/Dispatch about the callbacks, Native/Inbox about the inboxes.
--   Ble/Facade: include/jenlib/ble/BleDriver.h and include/jenlib/ble/Ble.h. The interface of the
--     drivers is the record BleDriver, which the class BLE takes and the native driver fills;
--     Facade/Broadcast follows a reading from the sensor to the broker.
--   Ble/Typed: the dispatch to the typed callbacks that the radio drivers share, and the three messages
--     as one type; Ble/Told what a connection callback is told.
--   Ble/EspIdf: src/ble/drivers/EspIdfBleDriver.cpp and include/jenlib/ble/GattProfile.h.
--     EspIdf/Handlers holds the event handlers and the setters, EspIdf/Start is about begin and end,
--     EspIdf/Writes about what a peer writes, EspIdf/Links about the connection, EspIdf/Receiving about
--     receive.
--   Ble/Arduino: src/ble/drivers/ArduinoBleDriver.cpp. Arduino/Edges is about the connection,
--     Arduino/Broadcast about a reading on its way to the radio, Arduino/Receiving about receive.
--   Ble/Gatt: the native characteristic and service, src/ble/drivers/NativeBleCharacteristic.cpp and
--     NativeBleService.cpp; Gatt/Values follows a value from its write to its read.
--   Ble/Roles: include/jenlib/ble/Roles.h; Roles/Exchange follows the messages of a broker to a sensor.
--   Events: include/jenlib/events and src/events/EventDispatcher.cpp. The static members are the record
--     Dispatcher. Events/Queue is about dispatch_event, Events/Slots and Events/Registration about
--     register_callback, unregister_callback and unregister_callbacks, Events/Delivery about
--     process_events.
--   Time: include/jenlib/time/Time.h, TimeTypes.h and src/time/Time.cpp. The static members are the
--     record Timers. Time/Slots and Time/Scheduling hold the invariant, Time/Handles is about
--     schedule_callback and cancel_callback, Time/Processing, Time/Firing and Time/Calls about
--     process_timers and sequences of calls, Time/Reentry about callbacks that call the service,
--     Time/Drivers and Time/Native about src/time/drivers.
--   State: include/jenlib/state and src/state. State/Machine is the base class, with its Trace
--     and Told about what the callbacks are told; State/Sensor and State/Broker are the two machines,
--     each with its Outcomes, what an operation does to the base class, its Invariant and its Sessions.
--   Gpio: include/jenlib/gpio and src/gpio. The wrapper passes calls on to a record of the operations of
--     a driver, which Gpio/Native, Gpio/Arduino and Gpio/EspIdf fill. Gpio/Wrapper is about the
--     resolutions, Arduino/Pwm about the scaling for analogWrite, EspIdf/Channels and EspIdf/Outputs
--     about the channels that pins share, EspIdf/Duty about what is put out on them, EspIdf/Scaling
--     about the readings of the converter.
--   OneWire: include/jenlib/onewire/OneWireBus.h and src/onewire/drivers. OneWire.antt is the native
--     bus, OneWire/Arduino and OneWire/EspIdf the other two, OneWire/Crc the checksum of Dallas,
--     OneWire/Bytes the order of the bits, EspIdf/Waveform what a device on the wire sees, and
--     OneWire/Native is about the native bus over the native pins.
--   Measurement: include/jenlib/measurement/Measurement.h and src/measurement/Measurement.cpp;
--     Measurement/Wire has the eight bytes.
--   The Tests modules run the definitions at concrete inputs.
--
-- How the code is written down
--   A member function that changes its object takes the object as a record and returns the new one
--   beside its result. An output parameter is an argument for its old value and a result for its new
--   one, so a failure that has written a part of it shows. A std::function is a handle, and none where
--   it is empty; what running it does is a parameter, which may change the object that runs it. The
--   state machines and the drivers of the radios collect the calls of their callbacks instead, and the
--   drivers over a platform library the calls that they make of it. Numbers are the native ones with
--   the wrap-around of each type written out; size_t has 32 bits, as on the boards. Loops over fixed
--   arrays are recursion on the number of slots left, so no fuel is needed. The operations of float are
--   a record that a section takes as a parameter.
--
-- What is not modelled
--   The radio stacks, pins and clocks of the platforms themselves: their answers and events are
--   arguments. The values of float and their rounding. The locks of the native driver, and a callback
--   of a radio driver that calls the driver. Shifts are by less than the width of their type, and a
--   resolution of 0 bits, for which the ESP-IDF driver would divide by 0, is not asked for. Of the
--   preprocessor switches those that change what a modelled function does are arguments. Examples,
--   test programs, the typed pins of include/jenlib/gpio/PinTypes.h and the constants of
--   include/jenlib/ble/Protocol.h are left out.
pub mod Common
pub mod Ble
pub mod Events
pub mod Gpio
pub mod OneWire
pub mod Measurement
pub mod State
pub mod Time
